-- ===== src/Websocket/Extension.antt =====
-- cmd/run/socket/proxy.go: newWebsocket, which reads the header of the agreed extensions. strconv.Atoi is a
-- parameter.
use subtrace_docker_wireshar.Base.{
  ℕ, Bool, true, false, ◌&&◌, List, [], ◌∷◌, Option, none, some, leb, ◌==◌, if◌then◌else◌,
}
use subtrace_docker_wireshar.Base.Text.{codes, equal, split, trim_space}

abbrev pub Bytes : Type 0
Bytes = List ℕ

-- An int; `negsuc n` is -n-1.
pub data ℤ : Type 0 where
  pos negsuc : ℕ → ℤ

pub record Settings : Type 0 where
  pub client_no_context : Bool
  pub server_no_context : Bool
  pub client_bits : ℤ
  pub server_bits : ℤ

abbrev pub blank : Settings
blank = record {
  client_no_context = false;
  server_no_context = false;
  client_bits = pos 0;
  server_bits = pos 0;
}

-- strings.CutPrefix.
unfoldable pub cut_prefix : Bytes → Bytes → Option Bytes
cut_prefix [] text = some text
cut_prefix (p ∷ ps) [] = none
cut_prefix (p ∷ ps) (c ∷ cs) = let rest = cut_prefix ps cs in if c == p then rest else none

abbrev pub set_client : Option ℤ → Settings → Settings
set_client none s = s
set_client (some n) s = record s { client_bits = n }

abbrev pub set_server : Option ℤ → Settings → Settings
set_server none s = s
set_server (some n) s = record s { server_bits = n }

module _ (atoi : Bytes → Option ℤ) where
  -- The switch on an option.
  unfoldable pub on_option : Bytes → Settings → Settings
  unfolding equal cut_prefix trim_space
  on_option raw s =
      let option = trim_space raw in
      if equal option (codes "client_no_context_takeover")
      then record s { client_no_context = true }
      else if equal option (codes "server_no_context_takeover")
      then record s { server_no_context = true }
      else elim (cut_prefix (codes "client_max_window_bits=") option) [
        | some val ↦ set_client (atoi val) s
        | none ↦ elim (cut_prefix (codes "server_max_window_bits=") option) [
          | some val ↦ set_server (atoi val) s
          | none ↦ s
        ]
      ]

  unfoldable pub on_options : List Bytes → Settings → Settings
  unfolding on_option
  on_options [] s = s
  on_options (option ∷ rest) s = on_options rest (on_option option s)

  abbrev pub on_extension : Option Bytes → Settings → Settings
  on_extension none s = s
  on_extension (some options) s = on_options (split 59 options) s

  unfoldable pub on_extensions : List Bytes → Settings → Settings
  unfolding on_options cut_prefix trim_space split
  on_extensions [] s = s
  on_extensions (ext ∷ rest) s =
      on_extensions rest (on_extension (cut_prefix (codes "permessage-deflate") (trim_space ext)) s)

  abbrev pub or_default : ℤ → ℤ
  or_default (pos n) = if n == 0 then pos 15 else pos n
  or_default (negsuc n) = negsuc n

  abbrev pub in_range : ℤ → Bool
  in_range (pos n) = leb 8 n && leb n 15
  in_range (negsuc n) = false

  -- The checks of the windows; none is an error.
  unfoldable pub check_bits : Settings → Option Settings
  check_bits s =
      let t = record s {
        client_bits = or_default s.client_bits;
        server_bits = or_default s.server_bits;
      } in
      if in_range t.client_bits && in_range t.server_bits then some t else none

  unfoldable pub new_websocket : Bytes → Option Settings
  unfolding on_extensions check_bits split
  new_websocket header = check_bits (on_extensions (split 44 header) blank)
