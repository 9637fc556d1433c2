-- ===== src/Extension/Host.antt =====
-- src/lib.rs, `native_host_stats`: the load and the memory of the host from /proc. What the files hold
-- is an argument, and so is the arithmetic on floating-point numbers.
use allgres_agent.Base.{ℕ, ◌-◌, ◌/◌, Option, none, some, List, [], ◌∷◌, ltb, if◌then◌else◌}
use allgres_agent.Text.{Bytes, codes, str_eq, split_once}
use allgres_agent.Json.{Json, and_then, unwrap_or}
use allgres_agent.Http.Space.{lines, trim, next_word, parse_usize}

-- The map of a meminfo file, the newest insertion first.
abbrev pub Meminfo : Type 0
Meminfo = List (Bytes × ℕ)

unfoldable pub find_kb : Bytes → Meminfo → Option ℕ
find_kb key [] = none
find_kb key ((k, n) ∷ kv) = let rest = find_kb key kv in if str_eq k key then some n else rest

-- `rest.split_whitespace().next()?.parse().ok()?`.
unfoldable pub first_number : Bytes → Option ℕ
first_number rest = and_then (next_word (trim rest)) (λ w. parse_usize w.0)

-- The loop over the lines: one line without a colon or without a number ends it with nothing.
unfoldable pub meminfo : List Bytes → Meminfo → Option Meminfo
unfolding first_number
meminfo [] kv = some kv
meminfo (line ∷ rest) kv = elim (split_once b':' line) [
  | none ↦ none
  | some (key, text) ↦ elim (first_number text) [
    | none ↦ none
    | some n ↦ meminfo rest ((key, n) ∷ kv)
  ]
]

-- `f64`: the JSON value of a number read from text, of a share in percent, and of 0.0.
pub record Floats (V : Type 0) : Type 0 where
  pub parse_f64 : Bytes → Option V
  pub percent : ℕ → ℕ → V
  pub zero_f64 : V

module _ (json : Json) (floats : Floats json.Value) where
  open json use {Value, null, num, object}
  open floats use {parse_f64, percent, zero_f64}

  -- The next word as a number, and what follows it.
  unfoldable pub next_f64 : Bytes → Option (Value × Bytes)
  next_f64 s = and_then (next_word s) (λ w. and_then (parse_f64 w.0) (λ v. some (v, w.1)))

  unfoldable pub load_value : Bytes → Option Value
  unfolding next_f64
  load_value s = and_then (next_f64 s) (λ one. and_then (next_f64 one.1) (λ five.
      and_then (next_f64 five.1) (λ fifteen. some (
        object
          ((codes "load1", one.0) ∷ (codes "load5", five.0) ∷ (codes "load15", fifteen.0) ∷ [])))))

  unfoldable pub memory_value : Meminfo → Option Value
  unfolding find_kb
  memory_value kv = and_then (find_kb (codes "MemTotal") kv) (λ total.
      and_then (find_kb (codes "MemAvailable") kv) (λ avail.
        let used = total - avail in
        some (
          object (
            (codes "total_mb", num (total / 1024))
            ∷ (codes "used_mb", num (used / 1024))
            ∷ (codes "available_mb", num (avail / 1024))
            ∷ (codes "used_pct", if ltb 0 total then percent used total else zero_f64)
            ∷ []))))

  -- The first two arguments are the files, where they can be read, the third the number of
  -- processors.
  unfoldable pub native_host_stats : Option Bytes → Option Bytes → Option ℕ → Value
  unfolding load_value meminfo memory_value
  native_host_stats loadavg meminfo_text cpus = object (
      (codes "load", unwrap_or (and_then loadavg load_value) null)
      ∷ (
        codes "memory",
        unwrap_or (and_then meminfo_text (λ s. and_then (meminfo (lines s) []) memory_value)) null,
      )
      ∷ (codes "cpu_count", num (unwrap_or cpus 0))
      ∷ [])
