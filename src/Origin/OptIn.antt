-- ===== src/Origin/OptIn.antt =====
-- What rag/source_origin.py lets through of the archives: nothing without an explicit scope.
use Prim.Native.String.{String}
use aki_rag_middleware.Prelude.{Bool, ◌||◌, Option, some, List, map, strip}
use aki_rag_middleware.Python.Values.{Runtime}
use aki_rag_middleware.Origin.{
  Archives, given, web_archive_roots, chat_archive_roots, special, or_empty, registered, under,
}

module _ (py : Runtime) (name : String → String) (registered_origin : String → Option String) where
  -- The scopes that are named, as they are compared.
  abbrev pub cleaned : List String → List String
  cleaned values = map py.casefold (given (map strip values))

  -- A record of an archive: by the index, by the registry, or by its path.
  abbrev pub is_archived : Archives → String → String → Option String → Bool
  is_archived a document_id path indexed_origin =
      special (some (strip (or_empty indexed_origin)))
      || (special (registered py name registered_origin document_id)
          || (under py name registered_origin path (web_archive_roots a)
              || (under py name registered_origin path (chat_archive_roots a)
                  || under py name registered_origin path a.mail_archive_roots)))
