-- ===== src/Acl/Search/Meaning.antt =====
-- What a WebDAV SEARCH selects, by RFC 5323: the reading of the bodies of rag/acl.py that is
-- independent of how they are built.
use aki_rag_middleware.Prelude.{
  String, Bool, true, false, ◌&&◌, ◌||◌, Option, none, some, any, ◌==◌, if◌then◌else◌,
}
use aki_rag_middleware.Acl.Xml.{
  Element, element, Elements, end, child, tag_of, text_of_element, children_of, tagged,
}

abbrev pub is_text : String → Option String → Bool
is_text n none = false
is_text n (some text) = text == n

-- `<prop>` names the property `fileid` alone.
abbrev pub names_fileid : Elements → Bool
names_fileid (child e end) = tag_of e == "{http://owncloud.org/ns}fileid"
names_fileid es = false

-- The file id `n` is compared with a literal and found equal.
abbrev pub compared : String → Elements → Bool
compared n (child (element prop text names) (child literal end)) =
    prop == "{DAV:}prop"
    && (names_fileid names
        && (tag_of literal == "{DAV:}literal" && is_text n (text_of_element literal)))
compared n es = false

-- Whether the file with the id `n` satisfies a condition: `or` and `and` of conditions, or an equation
-- on the file id. Any other condition selects nothing here.
unfoldable mutual
  pub matches : String → Element → Bool
  matches n (element tag text children) =
      if tag == "{DAV:}or"
      then matches_any n children
      else if tag == "{DAV:}and"
      then matches_all n children
      else tag == "{DAV:}eq" && compared n children

  pub matches_any : String → Elements → Bool
  matches_any n end = false
  matches_any n (child e es) = matches n e || matches_any n es

  pub matches_all : String → Elements → Bool
  matches_all n end = true
  matches_all n (child e es) = matches n e && matches_all n es

-- The scope is the folder, with everything below it.
abbrev pub reaches : String → Element → Bool
reaches folder scope =
    any (λ h. is_text folder (text_of_element h)) (tagged "{DAV:}href" scope)
    && any (λ d. is_text "infinity" (text_of_element d)) (tagged "{DAV:}depth" scope)

-- The file ids are asked for.
abbrev pub selects_fileid : Element → Bool
selects_fileid search =
    any
      (λ s.
        any (λ p. any (λ e. true) (tagged "{http://owncloud.org/ns}fileid" p))
          (tagged "{DAV:}prop" s))
      (tagged "{DAV:}select" search)

-- Whether the request asks for the file id of the file `n` below the folder.
unfoldable pub asks : String → Element → String → Bool
unfolding matches
asks folder request n =
    tag_of request == "{DAV:}searchrequest"
    && any
        (λ search.
          selects_fileid search
          && (any (λ f. any (reaches folder) (tagged "{DAV:}scope" f)) (tagged "{DAV:}from" search)
              && any (λ w. any (matches n) (children_of w)) (tagged "{DAV:}where" search)))
        (tagged "{DAV:}basicsearch" request)
