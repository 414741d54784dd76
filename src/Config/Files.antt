-- ===== src/Config/Files.antt =====
-- The files that the configuration names: `get_client_list` and `load_file` of src/utils/config.c,
-- with the `fscanf` call of the former. `fopen`, `fread` and `get_file_size` are one question to
-- the outside, what a file holds; libunistring's `u8_check` and `inet_pton` are parameters too.
pub mod Clients
use clip_share_server.Prelude.{
  ℕ, zero, suc, ◌+◌, Bool, true, false, not, ◌&&◌, ◌||◌, Option, none, some, List, [], ◌∷◌, ◌++◌,
  length, leb, ltb, ◌==◌, if◌then◌else◌, is_empty,
}
use clip_share_server.Config.Trim.{trim}

-- What the code asks of libraries and of the file system.
pub record Outside : Type 0 where
  -- u8_check() finds no invalid sequence
  pub u8_valid : List ℕ → Bool
  -- inet_pton() gives 1, with the address
  pub inet_pton4 : List ℕ → Option ℕ
  pub inet_pton6 : List ℕ → Option ℕ
  -- the content of a readable file
  pub read_file : List ℕ → Option (List ℕ)

-- A C string stops at its first zero byte.
unfoldable pub c_string : List ℕ → List ℕ
c_string [] = []
c_string (c ∷ s) = let more = c_string s in if c == 0 then [] else c ∷ more

-- The conversion %511[^\n]: up to `room` bytes other than a newline, and what is left.
unfoldable pub scan_set : ℕ → List ℕ → List ℕ × List ℕ
scan_set zero s = ([], s)
scan_set (suc room) [] = ([], [])
scan_set (suc room) (c ∷ s) =
    let more = scan_set room s in
    elim (c == 10) [ true ↦ ([], c ∷ s) | false ↦ (c ∷ more.0, more.1) ]

-- The conversion %*c: one byte is read and dropped, if there is one.
abbrev pub skip_char : List ℕ → List ℕ
skip_char [] = []
skip_char (c ∷ s) = s

-- One call of fscanf(f, "%511[^\n]%*c", client).
pub data Scan : Type 0 where
  -- EOF before anything was converted
  eof : Scan
  -- 0: the first byte is a newline, which stays in the file, and `client` is not written
  no_match : Scan
  -- 1: the bytes that were stored, and what is left of the file
  match : List ℕ → List ℕ → Scan

unfoldable pub scan_line : List ℕ → Scan
scan_line [] = eof
scan_line (c ∷ s) =
    let r = scan_set 511 (c ∷ s) in if c == 10 then no_match else match r.0 (skip_char r.1)

pub data ClientList : Type 0 where
  clients : List (List ℕ) → ClientList
  -- error_exit: the encoding is not UTF-8
  bad_encoding : ClientList
  out_of_fuel : ClientList

-- str[0] == '#'
abbrev pub has_hash : List ℕ → Bool
has_hash [] = false
has_hash (c ∷ s) = c == b'#'

module _ (o : Outside) where
  open o use {u8_valid}

  -- The body of the loop: what is added to the list, or none if the encoding is wrong. `client`
  -- is the buffer.
  unfoldable pub entry : List ℕ → Option (List (List ℕ))
  entry client =
      let line = c_string client in
      let name = trim line in
      if not (u8_valid (line ++ 0 ∷ []))
      then none
      else if is_empty name
      then some []
      else if has_hash name
      then some []
      else some (name ∷ [])

  -- while (fscanf(...) != EOF): `client` is the buffer, `file` what is left to read.
  unfoldable pub client_loop : ℕ → List ℕ → List ℕ → List (List ℕ) → ClientList
  client_loop zero client file list = out_of_fuel
  client_loop (suc fuel) client file list = elim (scan_line file) [
    | eof ↦ clients list
    | no_match ↦ elim (entry client) [
      | none ↦ bad_encoding
      | some new ↦ client_loop fuel (trim (c_string client)) file (list ++ new)
    ]
    | match line rest ↦ elim (entry line) [
      | none ↦ bad_encoding
      | some new ↦ client_loop fuel (trim (c_string line)) rest (list ++ new)
    ]
  ]

-- `load_file`: the content, or none where `error_exit` ends the process.
unfoldable pub load_file : Outside → List ℕ → Option (List ℕ)
load_file o file_name = elim (o.read_file file_name) [
  | none ↦ none
  | some data_ ↦ if leb (length data_) 0 || ltb 65536 (length data_) then none else some data_
]
