-- ===== src/Config.antt =====
-- config/config.go and filter/filter.go: the settings of the tracer. The YAML decoder, SHA-256 and the
-- expression language of the rules answer through arguments.
pub mod Rules
use subtrace_docker_wireshar.Base.{
  ℕ, Bool, true, false, ◌&&◌, ◌||◌, List, [], ◌∷◌, ◌++◌, map, Option, none, some, leb, ◌==◌,
  if◌then◌else◌,
}
use subtrace_docker_wireshar.Base.Text.{codes, equal}

pub data Action : Type 0 where
  include exclude : Action

-- An expression that compiled, and what is done where it matches. `eval` answers `none` for an error,
-- or a value that is no Boolean.
pub record Filter (Entry : Type 0) : Type 0 where
  pub action : Action
  pub eval : Entry → Option Bool

-- The compiler of the expression language: `none` for an expression that does not compile, or to a
-- type that is not bool.
pub record Language (Entry : Type 0) : Type 0 where
  pub compile : List ℕ → Option (Entry → Option Bool)
  -- the entry that the static test evaluates with
  pub dummy : Entry

abbrev pub action_of : List ℕ → Option Action
action_of then_text =
    if equal then_text (codes "include")
    then some include
    else if equal then_text (codes "exclude")
    then some exclude
    else none

-- The result of GetMatchingFilter: an error, nil, or a filter.
pub data Match (Entry : Type 0) : Type 0 where
  eval_error : Match Entry
  no_match : Match Entry
  matches : Filter Entry → Match Entry

module _ {Entry : Type 0} where
  -- The static test of NewFilter.
  abbrev pub tested : Entry → Filter Entry → Option (Filter Entry)
  tested dummy f = elim (f.eval dummy) [ none ↦ none | some b ↦ some f ]

  abbrev pub compiled : Language Entry → List ℕ → Action → Option (Filter Entry)
  compiled l expr act = elim (l.compile expr) [
    | none ↦ none
    | some eval ↦ tested l.dummy (record { action = act; eval = eval })
  ]

  unfoldable pub new_filter : Language Entry → List ℕ → List ℕ → Option (Filter Entry)
  unfolding equal
  new_filter l expr then_text = elim (action_of then_text) [
    | none ↦ none
    | some act ↦ compiled l expr act
  ]

  abbrev pub or_rest : Filter Entry → Match Entry → Option Bool → Match Entry
  or_rest f rest none = eval_error
  or_rest f rest (some true) = matches f
  or_rest f rest (some false) = rest

  unfoldable pub get_matching_filter : List (Filter Entry) → Entry → Match Entry
  get_matching_filter [] entry = no_match
  get_matching_filter (f ∷ rest) entry = or_rest f (get_matching_filter rest entry) (f.eval entry)

-- The letters of a tag's key.
abbrev pub is_key_letter : ℕ → Bool
is_key_letter c =
    (leb 97 c && leb c 122) || (leb 65 c && leb c 90) || (leb 48 c && leb c 57) || (c == 95)

unfoldable pub valid_key : List ℕ → Bool
valid_key [] = true
valid_key (c ∷ cs) = is_key_letter c && valid_key cs

-- What the YAML decoder fills in, and the state of Config.
pub record Parsed : Type 0 where
  pub auth_credentials : List ℕ
  pub tags : List (List ℕ × List ℕ)
  pub rules : List (List ℕ × List ℕ)

-- What there is at the path of Load: no file, or what the decoder filled in, with no error or one.
pub data File : Type 0 where
  missing : File
  decodes : Bool → Parsed → File

pub record Config (Entry : Type 0) : Type 0 where
  pub auth_credentials : List ℕ
  pub template : List (List ℕ × List ℕ)
  pub filters : List (Filter Entry)

module _ {Entry : Type 0} where
  -- The loop over the tags: Set of each key that is valid, until one is not. The template is the list of
  -- the calls of Set.
  unfoldable pub load_tags : List (List ℕ × List ℕ) → Config Entry → Bool × Config Entry
  unfolding valid_key
  load_tags [] c = (true, c)
  load_tags ((key, val) ∷ rest) c =
      let later = load_tags rest (record c { template = c.template ++ (key, val) ∷ [] }) in
      if valid_key key then later else (false, c)

  unfoldable pub load_rules :
      Language Entry → List (List ℕ × List ℕ) → Config Entry → Bool × Config Entry
  unfolding new_filter
  load_rules l [] c = (true, c)
  load_rules l ((expr, then_text) ∷ rest) c = elim (new_filter l expr then_text) [
    | none ↦ (false, c)
    | some f ↦ load_rules l rest (record c { filters = c.filters ++ f ∷ [] })
  ]

  abbrev pub then_rules :
      Language Entry → List (List ℕ × List ℕ) → Bool × Config Entry → Bool × Config Entry
  then_rules l rules (true, c) = load_rules l rules c
  then_rules l rules (false, c) = (false, c)

  -- Load of a path that is not empty. The tags come in the order in which the map is walked.
  unfoldable pub load : Language Entry → File → Config Entry → Bool × Config Entry
  unfolding load_tags load_rules
  load l missing c = (false, c)
  load l (decodes false parsed) c = (false, record c { auth_credentials = parsed.auth_credentials })
  load l (decodes true parsed) c =
      then_rules l parsed.rules
        (load_tags parsed.tags (record c { auth_credentials = parsed.auth_credentials }))

  -- SantizeCredential; `hash` is the text <redacted:sha256:...> of a value.
  unfoldable pub sanitize_credential : (List ℕ → List ℕ) → Config Entry → List ℕ → List ℕ
  unfolding equal
  sanitize_credential hash c val =
      if equal c.auth_credentials (codes "keep")
      then val
      else if equal c.auth_credentials (codes "hash")
      then hash val
      else codes "<redacted>"
