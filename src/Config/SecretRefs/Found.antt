-- ===== src/Config/SecretRefs/Found.antt =====
-- Which names the walk finds: the strings under a "secret" key of some object of the documents.
use cronfoundry.Prelude.{
  String, ◌≡◌, refl, Bool, false, ◌||◌, ◌&&◌, not, Bool-cases, inl, inr, arith, sort_by, insert_by,
  Option, none, some, List, [], ◌∷◌, str_eq, eq_iff, any,
}
use cronfoundry.Config.Json.{
  Json, Elements, Members, null, bool, number, string, array, object, no_elements, element,
  no_members, member,
}
use cronfoundry.Config.SecretRefs.{
  has_name, secret_of, mark_secret, walk, walk_elements, walk_members, seen_refs, walk_all,
  mark_ref, collect_secret_refs, name_le,
}

-- a name that is not empty and is the one given
abbrev pub names : String → String → Bool
names n m = not (str_eq m "") && str_eq n m

-- An object of the document has the name under "secret".
unfoldable mutual
  pub mentions : String → Json → Bool
  mentions n null = false
  mentions n (bool b) = false
  mentions n (number x) = false
  mentions n (string s) = false
  mentions n (array xs) = mentions_elements n xs
  mentions n (object ms) = names n (secret_of ms) || mentions_members n ms

  pub mentions_elements : String → Elements → Bool
  mentions_elements n no_elements = false
  mentions_elements n (element x xs) = mentions n x || mentions_elements n xs

  pub mentions_members : String → Members → Bool
  mentions_members n no_members = false
  mentions_members n (member k v ms) = mentions n v || mentions_members n ms

mark_secret_lem :
    (n m : String) (seen : List String)
    → has_name n (mark_secret m seen) ≡ (has_name n seen || names n m)
mark_secret_lem n m seen = elim (Bool-cases (any (str_eq m) seen)) [
  | inl e ↦ ground (arith, eq_iff m "", eq_iff n m)
  | inr e ↦ ground (arith, eq_iff m "", eq_iff n m)
]

mutual
  unfolding walk mentions

  walk_lem :
      (n : String) (j : Json) (seen : List String)
      → has_name n (walk j seen) ≡ (has_name n seen || mentions n j)
  walk_lem n null seen = ground arith
  walk_lem n (bool b) seen = ground arith
  walk_lem n (number x) seen = ground arith
  walk_lem n (string s) seen = ground arith
  walk_lem n (array xs) seen = walk_elements_lem n xs seen
  walk_lem n (object ms) seen = ground (
    arith,
    walk_members_lem n ms (mark_secret (secret_of ms) seen),
    mark_secret_lem n (secret_of ms) seen,
  )

  walk_elements_lem :
      (n : String) (xs : Elements) (seen : List String)
      → has_name n (walk_elements xs seen) ≡ (has_name n seen || mentions_elements n xs)
  walk_elements_lem n no_elements seen = ground arith
  walk_elements_lem n (element x xs) seen =
      ground (arith, walk_elements_lem n xs (walk x seen), walk_lem n x seen)

  walk_members_lem :
      (n : String) (ms : Members) (seen : List String)
      → has_name n (walk_members ms seen) ≡ (has_name n seen || mentions_members n ms)
  walk_members_lem n no_members seen = ground arith
  walk_members_lem n (member k v ms) seen =
      ground (arith, walk_members_lem n ms (walk v seen), walk_lem n v seen)

any-insert_by {ℓ} :
    {A : Type ℓ}
    → (p : A → Bool) (le : A → A → Bool) (x : A) (xs : List A)
    → any p (insert_by le x xs) ≡ (p x || any p xs)
any-insert_by p le x [] = refl
any-insert_by p le x (y ∷ ys) = ground (arith, any-insert_by p le x ys)

any-sort_by {ℓ} :
    {A : Type ℓ}
    → (p : A → Bool) (le : A → A → Bool) (xs : List A) → any p (sort_by le xs) ≡ any p xs
any-sort_by p le [] = refl
any-sort_by p le (x ∷ xs) =
    ground (arith, any-insert_by p le x (sort_by le xs), any-sort_by p le xs)

abbrev pub is_ref : String → Option String → Bool
is_ref n none = false
is_ref n (some m) = names n m

-- some of the documents mentions the name
abbrev pub mentions_any : String → List Json → Bool
mentions_any n [] = false
mentions_any n (j ∷ js) = mentions n j || mentions_any n js

walk_all_lem :
    (n : String) (js : List Json) (seen : List String)
    → has_name n (walk_all js seen) ≡ (has_name n seen || mentions_any n js)
unfolding walk_all
walk_all_lem n [] seen = ground arith
walk_all_lem n (j ∷ js) seen = ground (arith, walk_all_lem n js (walk j seen), walk_lem n j seen)

mark_ref_lem :
    (n : String) (o : Option String) (seen : List String)
    → has_name n (mark_ref o seen) ≡ (has_name n seen || is_ref n o)
mark_ref_lem n none seen = ground arith
mark_ref_lem n (some m) seen = mark_secret_lem n m seen

-- A name is among the collected ones exactly when it is not empty and some object of the
-- destinations, of the environment or of a further document, at any depth, has it under "secret", or
-- it is the reference of the model's credentials.
pub collect_secret_refs_lem :
    (n : String) (destinations env : Json) (llm_ref : Option String) (extra : List Json)
    → has_name n (collect_secret_refs destinations env llm_ref extra)
      ≡ (mentions n destinations || (mentions n env || (mentions_any n extra || is_ref n llm_ref)))
unfolding collect_secret_refs seen_refs
collect_secret_refs_lem n destinations env llm_ref extra =
    let found = walk env (walk destinations []) in
    ground (
      arith,
      any-sort_by (str_eq n) name_le (mark_ref llm_ref (walk_all extra found)),
      mark_ref_lem n llm_ref (walk_all extra found),
      walk_all_lem n extra found,
      walk_lem n env (walk destinations []),
      walk_lem n destinations [],
    )
