-- ===== src/Acl/Xml.antt =====
-- The trees of `xml.etree.ElementTree` that rag/acl.py builds and reads. The print and the parser of
-- the standard library stand between them and the bytes on the wire, and are not modelled.
use aki_rag_middleware.Prelude.{
  ℕ, suc, max, String, Option, none, some, List, [], ◌∷◌, ◌++◌, ◌==◌, filter, if◌then◌else◌,
}

-- Tag, text and children; a tag is written with its namespace, as ElementTree does.
mutual
  pub data Element : Type 0 where
    element : String → Option String → Elements → Element

  pub data Elements : Type 0 where
    end : Elements
    child : Element → Elements → Elements

abbrev pub text_list : Option String → List String
text_list none = []
text_list (some text) = text ∷ []

-- `root.iter(tag)`, by the texts of the elements found, in document order
unfoldable mutual
  pub texts_of : String → Element → List String
  texts_of tag (element name text children) =
      (if name == tag then text_list text else []) ++ texts_among tag children

  pub texts_among : String → Elements → List String
  texts_among tag end = []
  texts_among tag (child e es) = texts_of tag e ++ texts_among tag es

-- The nesting depth of a tree, on which the serializer recurs.
unfoldable mutual
  pub height : Element → ℕ
  height (element name text children) = suc (height_among children)

  pub height_among : Elements → ℕ
  height_among end = 0
  height_among (child e es) = max (height e) (height_among es)

-- The tag and the children of an element, and its children with a tag.
abbrev pub tag_of : Element → String
tag_of (element tag text children) = tag

abbrev pub text_of_element : Element → Option String
text_of_element (element tag text children) = text

abbrev pub children_list : Elements → List Element
children_list end = []
children_list (child e es) = e ∷ children_list es

abbrev pub children_of : Element → List Element
children_of (element tag text children) = children_list children

abbrev pub tagged : String → Element → List Element
tagged tag e = filter (λ c. tag_of c == tag) (children_of e)
