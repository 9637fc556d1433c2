-- ===== src/Dump/Analyze/Writes.antt =====
-- When a report says that a statement writes.
use allgres_agent.Base.{
  ◌≡◌, refl, sym, ap, ◌∙◌, ◌↔◌, inl, inr, true, some, [], ◌∷◌, ◌++◌, arith, Bool-cases,
}
use allgres_agent.Text.{Bytes, codes, starts_with, contains, starts_with-append, starts_with→append}
use allgres_agent.Dump.Find.Complete.{Occurs}
use allgres_agent.Dump.Analyze.{writes, Analysis, analysis}
use allgres_agent.Dump.Analyze.Loops.{analysis-Loops}

contains→Occurs : (p s : Bytes) → contains p s ≡ true → (rest : Bytes) × Occurs p rest s
unfolding contains
contains→Occurs p [] h =
    let (rest, e) = starts_with→append p [] h in (rest, record { before = []; split_at = e })
contains→Occurs p (c ∷ s) h = elim (Bool-cases (starts_with p (c ∷ s))) [
  | inl e ↦
      let (rest, e') = starts_with→append p (c ∷ s) e in
      (rest, record { before = []; split_at = e' })
  | inr e ↦
      let (rest, o) = contains→Occurs p s (ground arith) in
      (rest, record { before = c ∷ o.before; split_at = ap (λ t. c ∷ t) o.split_at })
]

contains-append : (p before rest : Bytes) → contains p (before ++ (p ++ rest)) ≡ true
unfolding contains
contains-append [] [] [] = refl
contains-append [] [] (c ∷ rest) = refl
contains-append (c ∷ p) [] rest = ground (arith, starts_with-append (c ∷ p) rest)
contains-append p (b ∷ before) rest = ground (arith, contains-append p before rest)

-- The tags of a statement that writes.
pub data IsWriteTag : Bytes → Type 0 where
  into : IsWriteTag (codes ":intoClause {")
  insert : IsWriteTag (codes "{INSERTSTMT")
  update : IsWriteTag (codes "{UPDATESTMT")
  delete : IsWriteTag (codes "{DELETESTMT")
  merge : IsWriteTag (codes "{MERGESTMT")

tagged :
    (dump tag : Bytes)
    → IsWriteTag tag
    → contains tag dump ≡ true
    → (tag : Bytes) × IsWriteTag tag × (rest : Bytes) × Occurs tag rest dump
tagged dump tag w h = let (rest, o) = contains→Occurs tag dump h in (tag, w, rest, o)

writes→IsWriteTag :
    (dump : Bytes)
    → writes dump ≡ true
    → (tag : Bytes) × IsWriteTag tag × (rest : Bytes) × Occurs tag rest dump
unfolding writes
writes→IsWriteTag dump h = elim (Bool-cases (contains (codes ":intoClause {") dump)) [
  | inl e ↦ tagged dump _ into e
  | inr n1 ↦ elim (Bool-cases (contains (codes "{INSERTSTMT") dump)) [
    | inl e ↦ tagged dump _ insert e
    | inr n2 ↦ elim (Bool-cases (contains (codes "{UPDATESTMT") dump)) [
      | inl e ↦ tagged dump _ update e
      | inr n3 ↦ elim (Bool-cases (contains (codes "{DELETESTMT") dump)) [
        | inl e ↦ tagged dump _ delete e
        | inr n4 ↦ tagged dump _ merge (ground arith)
      ]
    ]
  ]
]

IsWriteTag→writes :
    (dump tag before rest : Bytes)
    → IsWriteTag tag
    → dump ≡ before ++ (tag ++ rest)
    → writes dump ≡ true
unfolding writes
IsWriteTag→writes dump tag before rest w e =
    let found : contains tag dump ≡ true = rw e (contains-append tag before rest) in
    by_tag tag w found
  where
    by_tag : (tag : Bytes) → IsWriteTag tag → contains tag dump ≡ true → writes dump ≡ true
    by_tag _ into h = ground arith
    by_tag _ insert h = ground arith
    by_tag _ update h = ground arith
    by_tag _ delete h = ground arith
    by_tag _ merge h = ground arith

-- A report that is given says of a dump that it writes exactly if one of the tags of a statement that
-- writes stands somewhere in the dump.
pub analysis-writes :
    (dump : Bytes) (a : Analysis)
    → analysis dump ≡ some a
    → (a.is_writing ≡ true)
      ↔ ((tag : Bytes) × IsWriteTag tag × (rest : Bytes) × Occurs tag rest dump)
analysis-writes dump a h =
    let same = (analysis-Loops dump a h).same_writes in
    (
      λ e. writes→IsWriteTag dump (sym same ∙ e),
      λ (tag, w, rest, o). same ∙ IsWriteTag→writes dump tag o.before rest w o.split_at,
    )
