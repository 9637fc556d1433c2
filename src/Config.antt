-- ===== src/Config.antt =====
-- src/config.rs: the settings of both workers and the runtime's socket. The environment, the data
-- directory and the file system are arguments.
pub mod Private
use allgres_agent.Base.{
  ℕ, zero, suc, ◌+◌, ◌-◌, ◌*◌, ◌/◌, ◌%◌, ◌^◌, ◌≤◌, ◌<◌, bit_and, bit_or, bit_xor, ◌≡◌, refl, sym,
  ap, ◌∙◌, ◌≢◌, ◌↔◌, ◌⊎◌, inl, inr, Bool, true, false, not, ◌&&◌, ◌||◌, Option, none, some, List,
  [], ◌∷◌, ◌++◌, map, arith, ltb, leb, ◌==◌, if◌then◌else◌, ==_iff, Bool-cases, Option-cases,
  is_some, length, take, drop, length-append, retain, all, any, length-retain-le, All,
}
use allgres_agent.Text.{
  Bytes, codes, str_eq, str_eq_iff, is_empty, starts_with, strip_prefix, contains, split_once,
  split, to_lower, to_upper, to_ascii_lowercase, to_ascii_uppercase, eq_ignore_ascii_case,
  is_ascii_digit, is_ascii_hexdigit, strip_prefix_iff, starts_with-append,
}
use allgres_agent.Json.{unwrap_or}
use allgres_agent.Utf8.{is_utf8}

-- `std::env::var(key).ok()`.
abbrev pub Env : Type 0
Env = Bytes → Option Bytes

unfoldable pub non_empty : Option Bytes → Option Bytes
non_empty none = none
non_empty (some s) = if is_empty s then none else some s

unfoldable pub env_opt : Env → Bytes → Option Bytes
unfolding non_empty
env_opt env key = non_empty (env key)

abbrev pub default_db : Bytes
default_db = codes "postgres"

abbrev pub default_http_addr : Bytes
default_http_addr = codes "127.0.0.1:8088"

unfoldable pub configured_database : Env → Bytes
unfolding env_opt
configured_database env = unwrap_or (env_opt env (codes "ALLGRES_DATABASE")) default_db

unfoldable pub configured_http_addr : Env → Bytes
unfolding env_opt
configured_http_addr env = unwrap_or (env_opt env (codes "ALLGRES_HTTP_ADDR")) default_http_addr

unfoldable pub ends_with_slash : Bytes → Bool
ends_with_slash [] = false
ends_with_slash (c ∷ []) = c == b'/'
ends_with_slash (c ∷ d ∷ s) = ends_with_slash (d ∷ s)

-- `base.join(name)` for a relative name.
unfoldable pub join : Bytes → Bytes → Bytes
unfolding ends_with_slash
join base name = if is_empty base || ends_with_slash base then base ++ name else base ++ b'/' ∷ name

-- The argument is what the server's pointer points at, up to its null byte, if it is not null.
unfoldable pub data_directory : Option Bytes → Option Bytes
unfolding non_empty
data_directory none = none
data_directory (some s) = if is_utf8 s then non_empty (some s) else none

unfoldable pub dir_of : Option Bytes → Option Bytes → Bytes → Bytes
unfolding join
dir_of (some dir) data_dir temp = dir
dir_of none (some base) temp = join base (codes "allgres")
dir_of none none temp = join temp (codes "allgres")

unfoldable pub socket_dir : Env → Option Bytes → Bytes → Bytes
unfolding env_opt data_directory dir_of
socket_dir env data_dir temp =
    dir_of (env_opt env (codes "ALLGRES_SOCKET_DIR")) (data_directory data_dir) temp

unfoldable pub rpc_socket_path : Env → Option Bytes → Bytes → Bytes
unfolding socket_dir join
rpc_socket_path env data_dir temp = join (socket_dir env data_dir temp) (codes "runtime.sock")

-- What `fs::metadata` tells of a path. A mode is written in base 16: 0o700 is 0x1c0, 0o600 is 0x180
-- and 0o077 is 0x3f.
pub record Node : Type 0 where
  pub is_dir : Bool
  pub mode : ℕ

-- A file system: what stands at a path, and the calls that change it, each `none` on an error.
pub record Fs : Type 1 where
  pub State : Type 0
  pub metadata : State → Bytes → Option Node
  pub create_dir : Bytes → ℕ → State → Option State
  pub set_permissions : Bytes → ℕ → State → Option State
  pub remove_file : Bytes → State → Option State
  pub bind : Bytes → State → Option State

module _ (fs : Fs) where
  open fs use {State, metadata, create_dir, set_permissions, remove_file}

  abbrev pub then_do : Option State → (State → Option State) → Option State
  then_do none f = none
  then_do (some s) f = f s

  unfoldable pub create_missing : Bytes → State → Option State
  create_missing dir s = if is_some (metadata s dir) then some s else create_dir dir 0x1c0 s

  -- What is done with the directory that is there, by its metadata.
  unfoldable pub tighten : Bytes → State → Option Node → Option State
  tighten dir s none = none
  tighten dir s (some node) =
      if not node.is_dir
      then none
      else if not (bit_and node.mode 0x3f == 0)
      then set_permissions dir 0x1c0 s
      else some s

  unfoldable pub ensure_socket_dir : Bytes → State → Option State
  unfolding create_missing tighten
  ensure_socket_dir dir s = then_do (create_missing dir s) (λ s. tighten dir s (metadata s dir))

  -- An old socket is removed, if that succeeds.
  unfoldable pub bind_in : Bytes → State → Option State
  bind_in path s =
      then_do (fs.bind path (unwrap_or (remove_file path s) s)) (set_permissions path 0x180)

  unfoldable pub bind_rpc_socket : Bytes → State → Option State
  unfolding ensure_socket_dir bind_in join
  bind_rpc_socket dir s =
      then_do (ensure_socket_dir dir s) (bind_in (join dir (codes "runtime.sock")))
