-- ===== src/Js/Html.antt =====
-- What a component renders: elements with their attributes and text. `none` is an exception that
-- leaves the component, after which nothing of the page is shown. Inline styles that do not depend
-- on the data are left out, and so are keys and the functions that handle clicks.
use casuya_live.Common.{
  ℕ, ◌+◌, String, Bool, true, false, ◌&&◌, ◌||◌, Option, none, some, List, [], ◌∷◌, ◌++◌, ◌≡◌, refl,
  ap, ◌∙◌, arith, ◌===◌, if◌then◌else◌, All,
}
use casuya_live.Js.Values.{
  Float, Value, undefined, null, bool, num, str, arr, obj, Items, nil, cons,
}
use casuya_live.Js.Convert.{string_of}

abbrev pub Attributes : Type 0
Attributes = List (String × String)

mutual
  pub data Html : Type 0 where
    text : String → Html
    element : String → Attributes → Children → Html

  pub data Children : Type 0 where
    no_child : Children
    child : Html → Children → Children

abbrev pub children_of : List Html → Children
children_of [] = no_child
children_of (h ∷ hs) = child h (children_of hs)

abbrev pub View : Type 0
View = Option (List Html)

abbrev pub nothing : View
nothing = some []

abbrev pub words : String → View
words s = some (text s ∷ [])

-- One view after the other.
abbrev pub beside : View → View → View
beside none w = none
beside (some hs) none = none
beside (some hs) (some ks) = some (hs ++ ks)

-- A fragment, or the children of an element.
unfoldable pub fragment : List View → View
fragment [] = nothing
fragment (v ∷ vs) = beside v (fragment vs)

abbrev pub inside : String → Attributes → View → View
inside tag attributes none = none
inside tag attributes (some hs) = some (element tag attributes (children_of hs) ∷ [])

unfoldable pub node : String → Attributes → List View → View
unfolding fragment
node tag attributes vs = inside tag attributes (fragment vs)

-- `className={…}`
abbrev pub class : String → Attributes
class c = ("class", c) ∷ []

-- `b && <v />`
abbrev pub view_if : Bool → View → View
view_if b v = if b then v else nothing

module _ (F : Float) where
  open F use {N, show}

  mutual
    shown_value : Value N → View
    shown_value (num n) = words (show n)
    shown_value (str s) = words s
    shown_value (arr vs) = shown_items vs
    shown_value (obj fs) = none
    shown_value _ = nothing

    shown_items : Items N → View
    shown_items nil = nothing
    shown_items (cons v vs) = beside (shown_value v) (shown_items vs)

  -- `{v}` as a child: an object is refused by an exception.
  unfoldable pub shown : Value N → View
  unfolding shown_value shown_items
  shown v = shown_value v

  -- `name={v}`, which is left out where there is no value.
  abbrev pub attribute : String → Value N → Attributes
  attribute name undefined = []
  attribute name null = []
  attribute name (bool b) = []
  attribute name v = (name, string_of F v) ∷ []

-- Whether an element has a class attribute of exactly this text.
abbrev pub has_class : String → Attributes → Bool
has_class c [] = false
has_class c ((name, v) ∷ rest) = (name === "class" && v === c) || has_class c rest

-- A value that can be a child: no object, and no array, which could hold one.
abbrev pub is_plain : {N : Type 0} → Value N → Bool
is_plain (obj fs) = false
is_plain (arr vs) = false
is_plain v = true

-- Elements of a class, and of a tag.
abbrev pub by_class : String → String → Attributes → Bool
by_class c tag attributes = has_class c attributes

abbrev pub by_tag : String → String → Attributes → Bool
by_tag t tag attributes = tag === t

module _ (p : String → Attributes → Bool) where
  -- The elements that are of the kind, at any depth.
  mutual
    count_in : Html → ℕ
    count_in (text s) = 0
    count_in (element tag attributes hs) = (if p tag attributes then 1 else 0) + count_children hs

    count_children : Children → ℕ
    count_children no_child = 0
    count_children (child h hs) = count_in h + count_children hs

  unfoldable pub count_kind : List Html → ℕ
  unfolding count_in count_children
  count_kind [] = 0
  count_kind (h ∷ hs) = count_in h + count_kind hs

  -- The view is rendered, and so many of its elements are of the kind.
  pub record Shows (v : View) (n : ℕ) : Type 0 where
    pub html : List Html
    pub rendered : v ≡ some html
    pub counted : count_kind html ≡ n

  count_kind-append : (hs ks : List Html) → count_kind (hs ++ ks) ≡ count_kind hs + count_kind ks
  unfolding count_kind
  count_kind-append [] ks = omega arith
  count_kind-append (h ∷ hs) ks = omega (arith, count_kind-append hs ks)

  count_children-children_of : (hs : List Html) → count_children (children_of hs) ≡ count_kind hs
  unfolding count_kind count_children
  count_children-children_of [] = refl
  count_children-children_of (h ∷ hs) = ap (◌+◌ (count_in h)) (count_children-children_of hs)

  pub beside-Shows : {v w : View} {m n : ℕ} → Shows v m → Shows w n → Shows (beside v w) (m + n)
  beside-Shows h k = record {
    html = h.html ++ k.html;
    rendered = rw (h.rendered, k.rendered) refl;
    counted = omega (arith, count_kind-append h.html k.html, h.counted, k.counted);
  }

  pub none-Shows : Shows nothing 0
  unfolding count_kind
  none-Shows = record { html = []; rendered = refl; counted = refl }

  pub words-Shows : (s : String) → Shows (words s) 0
  unfolding count_kind count_in
  words-Shows s = record { html = text s ∷ []; rendered = refl; counted = omega arith }

  pub nil-Shows : Shows (fragment []) 0
  unfolding fragment
  nil-Shows = none-Shows

  pub cons-Shows :
      (v : View) (vs : List View) {m n : ℕ}
      → Shows v m
      → Shows (fragment vs) n
      → Shows (fragment (v ∷ vs)) (m + n)
  unfolding fragment
  cons-Shows v vs h k = beside-Shows h k

  pub node-Shows :
      (tag : String) (attributes : Attributes) (vs : List View) {n : ℕ}
      → Shows (fragment vs) n
      → Shows (node tag attributes vs) ((if p tag attributes then 1 else 0) + n)
  unfolding node count_kind count_in
  node-Shows tag attributes vs h = record {
    html = element tag attributes (children_of h.html) ∷ [];
    rendered = rw h.rendered refl;
    counted = omega (arith, count_children-children_of h.html, h.counted);
  }

  pub view_if-Shows :
      (b : Bool) {v : View} {n : ℕ} → Shows v n → Shows (view_if b v) (if b then n else 0)
  view_if-Shows true h = h
  view_if-Shows false h = none-Shows

  pub Shows-eq : {v : View} {m n : ℕ} → m ≡ n → Shows v m → Shows v n
  Shows-eq e h = record { html = h.html; rendered = h.rendered; counted = h.counted ∙ e }

  pub shown-Shows : (F : Float) (v : Value F.N) → is_plain v ≡ true → Shows (shown F v) 0
  unfolding shown
  shown-Shows F (num n) h = words-Shows (F.show n)
  shown-Shows F (str s) h = words-Shows s
  shown-Shows F (obj fs) h = absurd (cc)
  shown-Shows F (arr vs) h = absurd (cc)
  shown-Shows F undefined h = none-Shows
  shown-Shows F null h = none-Shows
  shown-Shows F (bool b) h = none-Shows

  abbrev pub sum : List ℕ → ℕ
  sum [] = 0
  sum (n ∷ ns) = n + sum ns

  abbrev pub AllShow : List View → List ℕ → Type 0
  AllShow [] [] = Unit
  AllShow (v ∷ vs) (n ∷ ns) = Shows v n × AllShow vs ns
  AllShow _ _ = ⊥

  pub fragment-Shows : (vs : List View) (ns : List ℕ) → AllShow vs ns → Shows (fragment vs) (sum ns)
  fragment-Shows [] [] h = nil-Shows
  fragment-Shows (v ∷ vs) (n ∷ ns) h = cons-Shows v vs h.0 (fragment-Shows vs ns h.1)
  fragment-Shows [] (n ∷ ns) h = absurd h
  fragment-Shows (v ∷ vs) [] h = absurd h

  pub node-AllShow :
      (tag : String) (attributes : Attributes) (vs : List View) (ns : List ℕ) {n : ℕ}
      → AllShow vs ns
      → (if p tag attributes then 1 else 0) + sum ns ≡ n
      → Shows (node tag attributes vs) n
  node-AllShow tag attributes vs ns h e =
      Shows-eq e (node-Shows tag attributes vs (fragment-Shows vs ns h))

  -- Views without an element of the kind.
  abbrev pub IsFree : View → Type 0
  IsFree v = Shows v 0

  pub fragment-IsFree : (vs : List View) → All IsFree vs → IsFree (fragment vs)
  fragment-IsFree [] h = nil-Shows
  fragment-IsFree (v ∷ vs) h = Shows-eq (omega arith) (cons-Shows v vs h.0 (fragment-IsFree vs h.1))

  pub node-IsFree :
      (tag : String) (attributes : Attributes) (vs : List View)
      → p tag attributes ≡ false
      → All IsFree vs
      → IsFree (node tag attributes vs)
  node-IsFree tag attributes vs e h =
      Shows-eq (ground arith) (node-Shows tag attributes vs (fragment-IsFree vs h))

  pub view_if-IsFree : (b : Bool) (v : View) → IsFree v → IsFree (view_if b v)
  view_if-IsFree true v h = h
  view_if-IsFree false v h = none-Shows

  pub if-IsFree : (b : Bool) (v w : View) → IsFree v → IsFree w → IsFree (if b then v else w)
  if-IsFree true v w h k = h
  if-IsFree false v w h k = k

pub ruleset free_rules =
    (if-IsFree, node-IsFree, fragment-IsFree, view_if-IsFree, words-Shows, none-Shows)

-- One child that throws is enough.
pub fragment_throws : (vs ws : List View) → fragment (vs ++ none ∷ ws) ≡ none
unfolding fragment
fragment_throws [] ws = refl
fragment_throws (none ∷ vs) ws = refl
fragment_throws (some hs ∷ vs) ws = rw (fragment_throws vs ws) refl

pub node_throws :
    (tag : String) (attributes : Attributes) (vs ws : List View)
    → node tag attributes (vs ++ none ∷ ws) ≡ none
unfolding node
node_throws tag attributes vs ws = rw (fragment_throws vs ws) refl
