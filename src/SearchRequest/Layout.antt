-- ===== src/SearchRequest/Layout.antt =====
-- The layout of the body of a search as a tree of elements, apart from how the code writes it.
use cadaver.Common.{◌≡◌, ◌∙◌, refl, ap, List, [], ◌∷◌, ◌++◌, append_assoc, Option, none, some}
use cadaver.Common.Text.{Bytes, codes}
use cadaver.Options.{Depth}
use cadaver.Search.Trees.{Tree, render}
use cadaver.SearchRequest.{
  PropName, order_part, order_parts, orderby_part, search_orderby_gen, depth_str, where_part,
  body_of,
}

-- Text, an element with its attributes and what it holds, or an empty element, and what comes after.
pub data Markup : Type 0 where
  done : Markup
  raw : Bytes → Markup → Markup
  inside : Bytes → Bytes → Markup → Markup → Markup
  empty : Bytes → Bytes → Markup → Markup

-- The text of a tree, with what follows.
abbrev pub print : Markup → Bytes → Bytes
print done rest = rest
print (raw text more) rest = text ++ print more rest
print (inside tag attributes content more) rest =
    b'<'
    ∷ (tag
        ++ (attributes
            ++ (b'>' ∷ print content (b'<' ∷ (b'/' ∷ (tag ++ (b'>' ∷ print more rest)))))))
print (empty tag attributes more) rest =
    b'<' ∷ (tag ++ (attributes ++ (b'/' ∷ (b'>' ∷ print more rest))))

abbrev pub line : Markup → Markup
line more = raw (codes "\n") more

abbrev pub element : Bytes → Markup → Markup → Markup
element tag content more = inside tag [] content more

-- The depths of RFC 4918.
abbrev pub depth_text : Depth → Bytes
depth_text Depth.depth_zero = codes "0"
depth_text Depth.depth_one = codes "1"
depth_text Depth.depth_infinite = codes "infinity"

-- One `order` for each name, with its direction.
abbrev pub orders : Bytes → List PropName → Markup → Markup
orders direction [] more = more
orders direction (p ∷ props) more =
    element (codes "D:order")
      (element (codes "D:prop")
        (line (empty p.name (codes " xmlns=\"" ++ (p.nspace ++ codes "\"")) (line done)))
        (empty (codes "D:" ++ direction) [] done))
      (line (orders direction props more))

abbrev pub given : Option (List PropName) → List PropName
given none = []
given (some props) = props

abbrev pub ordered : Option (List PropName) → Option (List PropName) → Markup
ordered none none = done
ordered asc des =
    element (codes "D:orderby")
      (line (orders (codes "ascending") (given asc) (orders (codes "descending") (given des) done)))
      (line done)

-- A search for the condition of the tree, in the scope of the address and the depth.
abbrev pub document :
    Bytes → Depth → Option (List PropName) → Option (List PropName) → Tree → Markup
document uri depth asc des t = raw (codes "<?xml version=\"1.0\" encoding=\"utf-8\" ?>\n") (
    inside (codes "D:searchrequest") (codes " xmlns:D=\"DAV:\"")
      (element (codes "D:basicsearch")
        (line (
          element (codes "D:select") (empty (codes "D:allprop") [] done) (
            line (
              element (codes "D:from")
                (element (codes "D:scope")
                  (element (codes "D:href") (raw uri done)
                    (element (codes "D:depth") (raw (depth_text depth) done) done))
                  done)
                (line (
                  element (codes "D:where") (line (raw (render t) done))
                    (line (ordered asc des))))))))
        done)
      (line done))

order_parts_lem :
    (direction : Bytes) (props : List PropName) (more : Markup) (rest : Bytes)
    → order_parts direction (some props) ++ print more rest
      ≡ print (orders direction props more) rest
order_parts_lem direction [] more rest = refl
order_parts_lem direction (p ∷ props) more rest =
    append_assoc (order_part direction p) (order_parts direction (some props)) (print more rest)
    ∙ ap (λ x. order_part direction p ++ x) (order_parts_lem direction props more rest)
    ∙ (simp append_assoc)

names_lem :
    (direction : Bytes) (props : Option (List PropName)) (more : Markup) (rest : Bytes)
    → order_parts direction props ++ print more rest
      ≡ print (orders direction (given props) more) rest
names_lem direction none more rest = refl
names_lem direction (some props) more rest = order_parts_lem direction props more rest

both_lem :
    (asc des : Option (List PropName)) (rest : Bytes)
    → order_parts (codes "ascending") asc ++ (order_parts (codes "descending") des ++ rest)
      ≡ print
          (orders (codes "ascending") (given asc) (orders (codes "descending") (given des) done))
          rest
both_lem asc des rest =
    ap (λ x. order_parts (codes "ascending") asc ++ x)
      (names_lem (codes "descending") des done rest)
    ∙ names_lem (codes "ascending") asc (orders (codes "descending") (given des) done) rest

orderby_part_lem :
    (asc des : Option (List PropName)) (rest : Bytes)
    → orderby_part asc des ++ rest
      ≡ print
          (element
            (codes "D:orderby")
            (line (
              orders
                (codes "ascending")
                (given asc)
                (orders (codes "descending") (given des) done)))
            (line done))
          rest
orderby_part_lem asc des rest =
    (simp append_assoc)
    ∙ ap (λ x. codes "<D:orderby>\n" ++ x) (both_lem asc des (codes "</D:orderby>\n" ++ rest))

ordered_lem :
    (asc des : Option (List PropName)) (rest : Bytes)
    → search_orderby_gen asc des ++ rest ≡ print (ordered asc des) rest
ordered_lem none none rest = refl
ordered_lem (some asc) none rest = orderby_part_lem (some asc) none rest
ordered_lem (some asc) (some des) rest = orderby_part_lem (some asc) (some des) rest
ordered_lem none (some des) rest = orderby_part_lem none (some des) rest

depth_lem : (depth : Depth) → depth_str depth ≡ depth_text depth
depth_lem Depth.depth_zero = refl
depth_lem Depth.depth_one = refl
depth_lem Depth.depth_infinite = refl

-- The code writes the text of the document.
pub body_of-document :
    (uri : Bytes) (depth : Depth) (asc des : Option (List PropName)) (t : Tree)
    → body_of uri depth asc des (where_part (render t)) ≡ print (document uri depth asc des t) []
body_of-document uri depth asc des t =
    (simp (append_assoc, depth_lem depth))
    ∙ ap
        (λ x.
          codes
            "<?xml version=\"1.0\" encoding=\"utf-8\" ?>\n<D:searchrequest xmlns:D=\"DAV:\"><D:basicsearch>\n<D:select><D:allprop/></D:select>\n<D:from><D:scope><D:href>"
          ++ (uri
              ++ (codes "</D:href><D:depth>"
                  ++ (depth_text depth
                      ++ (codes "</D:depth></D:scope></D:from>\n<D:where>\n"
                          ++ (render t ++ (codes "</D:where>\n" ++ x)))))))
        (ordered_lem asc des (codes "</D:basicsearch></D:searchrequest>\n"))
