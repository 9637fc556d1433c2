-- ===== src/Dump/Analyze/Loops.antt =====
-- What a report on a dump comes from.
use allgres_agent.Base.{
  ◌≡◌, refl, Option, none, some, List, [], ◌∷◌, ◌++◌, arith, Among, here, later, Among-left,
  Among-right,
}
use allgres_agent.Text.{Bytes, codes}
use allgres_agent.Dump.Find.{occurrences}
use allgres_agent.Dump.Analyze.{
  both, collect, relation_at, cte_at, function_at, writes, assemble, Analysis, analysis, Named,
}

-- Both lists were there.
both-some :
    {A : Type 0} (o p : Option (List A)) (zs : List A)
    → both o p ≡ some zs
    → (xs : List A) × (ys : List A) × (o ≡ some xs) × (p ≡ some ys) × (zs ≡ xs ++ ys)
both-some none p zs h = cc
both-some (some xs) none zs h = cc
both-some (some xs) (some ys) zs h = (xs, ys, refl, refl, cc)

-- A loop that has ended without a panic holds what each of its turns adds.
pub collect-Among :
    {A : Type 0} (f : Bytes → Option (List A)) (r : Bytes) (a : A) (rs : List Bytes)
    (xs ys : List A)
    → f r ≡ some ys
    → Among a ys
    → collect f rs ≡ some xs
    → Among r rs
    → Among a xs
unfolding collect
collect-Among f r a [] xs ys e m h n = elim n [ ]
collect-Among f r a (r' ∷ rs) xs ys e m h here =
    let (ps, qs, p, q, same) = both-some (f r) (collect f rs) xs h in
    let first : ps ≡ ys = cc in rw same (Among-left a ps qs (rw first m))
collect-Among f r a (r' ∷ rs) xs ys e m h (later n) =
    let (ps, qs, p, q, same) = both-some (f r') (collect f rs) xs h in
    rw same (Among-right a ps qs (collect-Among f r a rs qs ys e m q n))

-- A report comes from the three loops.
pub record Loops (dump : Bytes) (a : Analysis) (relations functions : Option (List Named))
    (ctes : Option (List Bytes)) : Type 0 where
  pub same_relations : relations ≡ some a.relations
  pub same_ctes : ctes ≡ some a.ctes
  pub same_functions : functions ≡ some a.functions
  pub same_writes : a.is_writing ≡ writes dump

assemble-Loops :
    (dump : Bytes) (a : Analysis) (relations : Option (List Named)) (ctes : Option (List Bytes))
    (functions : Option (List Named))
    → assemble dump relations ctes functions ≡ some a
    → Loops dump a relations functions ctes
unfolding assemble
assemble-Loops dump a (some r) (some c) (some f) h = ground arith
assemble-Loops dump a (some r) (some c) none h = cc
assemble-Loops dump a (some r) none f h = cc
assemble-Loops dump a none c f h = cc

pub analysis-Loops :
    (dump : Bytes) (a : Analysis)
    → analysis dump ≡ some a
    → Loops dump a
        (collect relation_at (occurrences (codes "{RANGEVAR ") dump))
        (collect function_at (occurrences (codes ":funcname (") dump))
        (collect cte_at (occurrences (codes ":ctename ") dump))
unfolding analysis
analysis-Loops dump a h = assemble-Loops dump a _ _ _ h
