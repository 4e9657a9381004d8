-- ===== src/Nostr/Announce/Laws.antt =====
-- What an announcement says, as a value: the order of its tags, repeated urls and mints, its id, its
-- author and its time are forgotten. Two events are compared by that value.
use mathlib.Core.Path.{fun_ext}
use routstr_core.Prelude.{
  ℕ, ◌≡◌, refl, ◌↔◌, ap, sym, ◌∙◌, Bool, true, Option, none, some, List, [], ◌∷◌, String, str_elem,
  arith, eq_iff, eq_refl, ==_iff,
}
use routstr_core.Nostr.{Event, Json, get_tag_values, get_single_tag_value}
use routstr_core.Nostr.Announce.{
  same_text, same_kind, subset, same_set, parse_content_json, events_semantically_equal,
}

same_text_iff : (a b : Option String) → (same_text a b ≡ true) ↔ (a ≡ b)
same_text_iff none none = ground arith
same_text_iff none (some b) = ground arith
same_text_iff (some a) none = ground arith
same_text_iff (some a) (some b) = ground (arith, eq_iff a b)

same_kind_iff : (a b : Option ℕ) → (same_kind a b ≡ true) ↔ (a ≡ b)
same_kind_iff none none = ground arith
same_kind_iff none (some b) = ground arith
same_kind_iff (some a) none = ground arith
same_kind_iff (some a) (some b) = ground (arith, ==_iff a b)

subset-elem :
    (s : String) (xs ys : List String)
    → subset xs ys ≡ true
    → str_elem s xs ≡ true
    → str_elem s ys ≡ true
subset-elem s [] ys h e = cc
subset-elem s (x ∷ xs) ys h e = ground (arith, eq_iff s x, subset-elem s xs ys)

elem-subset :
    (xs ys : List String)
    → ((s : String) → str_elem s xs ≡ true → str_elem s ys ≡ true)
    → subset xs ys ≡ true
elem-subset [] ys h = refl
elem-subset (x ∷ xs) ys h =
    let here = h x (ground (arith, eq_refl x)) in
    let rest = elem-subset xs ys (λ s e. h s (ground (arith, eq_iff s x))) in ground arith

-- the set of the texts of a list
abbrev pub set_of : List String → String → Bool
set_of xs s = str_elem s xs

bool_ext : (a b : Bool) → (a ≡ true → b ≡ true) → (b ≡ true → a ≡ true) → a ≡ b
bool_ext a b f g = ground arith

same_set_iff : (xs ys : List String) → (same_set xs ys ≡ true) ↔ (set_of xs ≡ set_of ys)
same_set_iff xs ys = (
  λ e. fun_ext (λ s.
      bool_ext (str_elem s xs) (str_elem s ys) (subset-elem s xs ys (ground arith))
        (subset-elem s ys xs (ground arith))),
  λ p.
      let there = elem-subset xs ys (λ s e. sym (ap (λ f. f s) p) ∙ e) in
      let back = elem-subset ys xs (λ s e. ap (λ f. f s) p ∙ e) in ground arith,
)

-- What an announcement says.
pub record Announced (J : Json) : Type 0 where
  pub kind : Option ℕ
  pub d : Option String
  pub urls : String → Bool
  pub mints : String → Bool
  pub version : Option String
  pub metadata : J.Object

abbrev pub announced : (J : Json) → Event → Announced J
announced J e = record {
  kind = e.kind;
  d = get_single_tag_value e "d";
  urls = set_of (get_tag_values e "u");
  mints = set_of (get_tag_values e "mint");
  version = get_single_tag_value e "version";
  metadata = parse_content_json J e.content;
}

announced_ext :
    (J : Json) (a b : Event)
    → a.kind ≡ b.kind
    → get_single_tag_value a "d" ≡ get_single_tag_value b "d"
    → set_of (get_tag_values a "u") ≡ set_of (get_tag_values b "u")
    → set_of (get_tag_values a "mint") ≡ set_of (get_tag_values b "mint")
    → get_single_tag_value a "version" ≡ get_single_tag_value b "version"
    → parse_content_json J a.content ≡ parse_content_json J b.content
    → announced J a ≡ announced J b
announced_ext J a b k d u m v c =
    λ i. record { kind = k i; d = d i; urls = u i; mints = m i; version = v i; metadata = c i }

-- If equality of JSON objects is decided rightly, two events are found equal exactly if they
-- announce the same: their kind, identifier, version and metadata, and their urls and mints as
-- sets.
pub events_semantically_equal-announced :
    (J : Json)
    → ((a b : J.Object) → (J.equal a b ≡ true) ↔ (a ≡ b))
    → (a b : Event) → (events_semantically_equal J a b ≡ true) ↔ (announced J a ≡ announced J b)
unfolding events_semantically_equal
events_semantically_equal-announced J law a b =
    let kinds = same_kind_iff a.kind b.kind in
    let ds = same_text_iff (get_single_tag_value a "d") (get_single_tag_value b "d") in
    let urls = same_set_iff (get_tag_values a "u") (get_tag_values b "u") in
    let mints = same_set_iff (get_tag_values a "mint") (get_tag_values b "mint") in
    let versions =
      same_text_iff (get_single_tag_value a "version") (get_single_tag_value b "version") in
    let contents = law (parse_content_json J a.content) (parse_content_json J b.content) in
    (
      λ e.
          announced_ext J a b (kinds.0 (ground arith)) (ds.0 (ground arith)) (urls.0 (ground arith))
            (mints.0 (ground arith)) (versions.0 (ground arith)) (contents.0 (ground arith)),
      λ p.
          let k = kinds.1 (ap (λ v. v.kind) p) in
          let d = ds.1 (ap (λ v. v.d) p) in
          let u = urls.1 (ap (λ v. v.urls) p) in
          let m = mints.1 (ap (λ v. v.mints) p) in
          let v = versions.1 (ap (λ v. v.version) p) in
          let c = contents.1 (ap (λ v. v.metadata) p) in ground arith,
    )
