-- ===== src/Kyc/Screening.antt =====
-- kyc/aml-screening.service.ts: names against the list of sanctions. Unicode's decomposition and upper
-- case are functions of the runtime.
use zentto_web.Prelude.{
  ℕ, Bool, true, false, not, ◌&&◌, ◌||◌, List, [], ◌∷◌, map, if◌then◌else◌, leb, all, filter,
  length,
}
use zentto_web.Prelude.Texts.{text_eq}
use zentto_web.Money.{Text, is_space}

pub record Unicode : Type 0 where
  pub nfd : Text → Text
  pub to_upper : Text → Text

-- 300 to 36F in hexadecimal
abbrev pub is_combining : ℕ → Bool
is_combining c = leb 768 c && leb c 879

abbrev pub is_name_char : ℕ → Bool
is_name_char c = leb b'A' c && leb c b'Z' || leb b'0' c && leb c b'9' || is_space c

abbrev pub push_char : ℕ → List Text → List Text
push_char c [] = (c ∷ []) ∷ []
push_char c (word ∷ words) = (c ∷ word) ∷ words

-- split(/\s+/), with an empty text wherever separators meet
unfoldable pub split_words : Text → List Text
split_words [] = [] ∷ []
split_words (c ∷ s) = let rest = split_words s in if is_space c then [] ∷ rest else push_char c rest

abbrev pub has_chars : Text → Bool
has_chars [] = false
has_chars (c ∷ s) = true

unfoldable pub tokens : Unicode → Text → List Text
unfolding split_words
tokens u name = filter has_chars (
    split_words (
      map (λ (c : ℕ). if is_name_char c then c else 32)
        (u.to_upper (filter (λ (c : ℕ). not (is_combining c)) (u.nfd name)))))

pub record ListEntry : Type 0 where
  pub name : Text
  pub tokens : List Text

abbrev pub load_list : Unicode → List Text → List ListEntry
load_list u names = map (λ (n : Text). record { name = n; tokens = tokens u n }) names

abbrev pub same_words : List Text → List Text → Bool
same_words [] [] = true
same_words (a ∷ rest) (b ∷ others) = text_eq a b && same_words rest others
same_words _ _ = false

abbrev pub includes : List Text → Text → Bool
includes [] t = false
includes (a ∷ words) t = text_eq a t || includes words t

abbrev pub is_hit : List Text → ListEntry → Bool
is_hit query e =
    same_words e.tokens query
    || (all (λ (t : Text). includes e.tokens t) query && leb 2 (length query))

-- The names of the hits; there is a match where there is a hit.
unfoldable pub screen : Unicode → List ListEntry → Text → List Text
screen u entries full_name =
    let query = tokens u full_name in
    if leb 1 (length query)
    then map (λ (e : ListEntry). e.name) (filter (is_hit query) entries)
    else []

abbrev pub is_match : List Text → Bool
is_match [] = false
is_match (h ∷ hits) = true
