-- ===== src/Lib.antt =====
-- A model of the core of the SunaQ retrieval middleware (rag/*.py).
--
-- The middleware lets retrieval systems propose candidates and Nextcloud decide: whatever search
-- finds is checked file by file against Nextcloud before it becomes evidence. Around that boundary
-- stand a policy on the retrieval arms, the choice between their results, inspection hooks, machine
-- credentials for internal calls, and a queue of graph construction jobs.
--
-- Prelude: shared names, Boolean tests, lists, and `str.strip`.
-- Python: the values of a `dict[str, Any]`, `bool()`, `or`, `str()`, and a dict in insertion order.
--   `Runtime` is a parameter for the Unicode tables and the print of containers; `IsUnicode` states
--   what is relied on. `Python.Ascii` is an instance.
-- Acl: rag/acl.py. FileId is `_file_id`; Promote is `_promote_authorized_duplicate`; Search is
--   `_nested_or`, `build_fileid_search_xml` and `parse_authorized_fileids` over ElementTree's trees
--   (Xml); Authorize is `authorize`, `authorize_with_credential` and `_authorize_with_credential`.
--   Nextcloud is a function from a credential and a SEARCH body to a reply, the same through a call.
--   `Answers` and `IsHonest` state what it does; which files a SEARCH asks for is read from its body by
--   `asks` of Search/Meaning, with `or`, `and`, scope and selection as in RFC 5323, and not from how
--   the body is built. The children prove the properties.
--   Credential is `_credential` over the environment and the store below. Identity is
--   `prefilter_identity`, where the OCS interface is a function.
-- Queue: rag/graph_queue.py. Job has the rows and the SQL, Enqueue `enqueue_evidence` and
--   `_coalesce_existing_active_jobs`, Worker `claim_next`, `finish`, `fail` and
--   `recover_stale_running`. A transaction is a step on the table, and Steps puts them in any order.
-- Policy: rag/retrieval_policy.py. Hooks: rag/policy_hooks.py. Auth: rag/internal_auth.py.
-- Signal: `choose_retrieval_strategy` and `overlap_at_k` of rag/retrieval_signal.py, over floats that
--   are a parameter.
-- Store: rag/credential_store.py and rag/secret_crypto.py. Sql has what statements do to a table, a
--   list of rows; Rows the tables; Scope the names of identities; Crypto the encryption of secrets,
--   over AES-GCM with base64 as a parameter. Clients, Credentials, Users, Sessions, Flows, Settings
--   and Mail are the operations. Calls of one transaction give a state or an exception; a call that
--   can raise after it has committed gives both. Clocks, random tokens and hashes are arguments.
-- Sync: rag/sync.py. Chunks is `chunk_text`, Split `_adaptive_embedding_split`, Embed
--   `embed_chunks_resilient`, over an embedding service that is a function of the texts it is given;
--   the children are about the loops, the chunks and their vectors.
-- Origin: rag/source_origin.py, from `classify_source_origin` to `source_scope_allows_record`, where
--   the registry, the settings and the last part of a path are parameters.
-- Search: rag/search.py, in part. Provenance is `merge_metadata`, `_merge_retrieval_provenance` and
--   `_merge_duplicate_variants`; Probes `_multi_probe_document_key` and `_merge_probe_rankings`;
--   Required `_merge_required_results` and `_preserve_required_after_rerank`; Similar and Variant
--   the tests for duplicates and `_duplicate_variant`; Dedup `_arm_head_document_ids` and
--   `deduplicate_for_reranker`; Arm `deduplicate_retrieval_arm`; Arms `fuse_results`; Joint what
--   `perform_multi_probe_search` does with them, but for the graph's evidence, and `rrf_fallback`;
--   the answer of the reranker is an argument. The three dicts of the joint ranking are one list of
--   entries, the `_dedup_` keys of a representative are fields beside it, and the set of mandatory
--   keys is a list in any order. Float scores, the `==` of values, `re`, `PurePosixPath`,
--   `SequenceMatcher` and `urlencode` are parameters; ranks are whole numbers.
-- Tests: the theorems on small inputs, with an example Nextcloud in Tests/Cloud.
--
-- Fuel: `fold_level` and `batches` take the length of their list, and each round shortens it.
-- `chunks_from` takes the length of the text, and each round moves on. `embed_group` takes the
-- number of chunks and a triangular number of the longest: a round halves the group, or replaces a
-- chunk by parts that are shorter. `trim` takes the length of the selection, which every round
-- shortens. Recursion is structural elsewhere.
--
-- Not modelled: the text of exceptions and of `reason`; the bytes of XML and JSON, whose printers
-- and parsers belong to the standard library; the order of listings; migrations of old databases;
-- negative priorities; negative sizes and overlaps of chunks, which the code takes as 0; a changing
-- Nextcloud or embedding service within one call; the services and the context of rag/search.py;
-- the path lookup of rag/acl.py; heartbeats and statistics of the queue; and the other modules of
-- rag/, which are handlers around services.
mod Prelude
pub mod Python
pub mod Acl
pub mod Queue
pub mod Policy
pub mod Hooks
pub mod Auth
pub mod Signal
pub mod Store
pub mod Origin
pub mod Search
pub mod Sync
pub mod Tests
