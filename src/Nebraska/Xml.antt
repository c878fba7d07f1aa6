-- ===== src/Nebraska/Xml.antt =====
-- The part of xml.etree.ElementTree that nebraska/nebraska.py uses: an element has a tag,
-- attributes and child elements. Text between the tags is not used by the server.
use cros_dev_util.Base.{
  String, ◌≡◌, refl, Option, none, some, List, [], ◌∷◌, str_eq, dict_get, if◌then◌else◌,
}

abbrev pub Attribs : Type 0
Attribs = List (String × String)

mutual
  pub data Element : Type 0 where
    element : String → Attribs → Elements → Element

  pub data Elements : Type 0 where
    nil : Elements
    cons : Element → Elements → Elements

abbrev pub tag : Element → String
tag (element t d es) = t

abbrev pub attribs : Element → Attribs
attribs (element t d es) = d

abbrev pub to_list : Elements → List Element
to_list nil = []
to_list (cons e es) = e ∷ to_list es

abbrev pub of_list : List Element → Elements
of_list [] = nil
of_list (e ∷ es) = cons e (of_list es)

abbrev pub children : Element → List Element
children (element t d es) = to_list es

pub to_list-of_list : (es : List Element) → to_list (of_list es) ≡ es
to_list-of_list [] = refl
to_list-of_list (e ∷ es) = cc (to_list-of_list es)

-- e.get(k)
abbrev pub get : String → Element → Option String
get k e = dict_get k (attribs e)

first_tagged : String → List Element → Option Element
first_tagged t [] = none
first_tagged t (e ∷ es) = if str_eq (tag e) t then some e else first_tagged t es

-- e.find(tag)
unfoldable pub find : String → Element → Option Element
unfolding first_tagged
find t e = first_tagged t (children e)

all_tagged : String → List Element → List Element
all_tagged t [] = []
all_tagged t (e ∷ es) = let rest = all_tagged t es in if str_eq (tag e) t then e ∷ rest else rest

-- e.findall(tag)
unfoldable pub find_all : String → Element → List Element
unfolding all_tagged
find_all t e = all_tagged t (children e)
