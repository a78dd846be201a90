-- ===== src/Audit/Verifier/Grouping.antt =====
-- crates/qw-audit/src/verifier.rs: the grouping by writer keeps each writer's entries, in order.
use quanta_watch.Prelude.{
  ◌≡◌, refl, ap, Text, text_eq, text_eq_iff, text_ltb, text_ltb-irreflexive, text_ltb_trans, same,
  less, more, comparison, true, false, List, [], ◌∷◌, ◌++◌, In, In-append, ◌⊎◌, inl, inr,
  Bool-cases, if◌then◌else◌, arith,
}
use quanta_watch.Audit.Entry.{AuditEntry}
use quanta_watch.Audit.Verifier.Groups.{push_entry, group_into, group_by_writer}

abbrev Groups : Type 0
Groups = List (Text × List AuditEntry)

-- The entries under a key.
unfoldable pub entries_of : Text → Groups → List AuditEntry
entries_of w [] = []
entries_of w ((key, entries) ∷ groups) = if text_eq key w then entries else entries_of w groups

-- A key before all keys of ordered groups.
abbrev IsBelow : Text → Groups → Type 0
IsBelow w [] = Unit
IsBelow w ((key, _) ∷ groups) = text_ltb w key ≡ true

abbrev IsOrdered : Groups → Type 0
IsOrdered [] = Unit
IsOrdered ((key, _) ∷ groups) = IsBelow key groups × IsOrdered groups

IsBelow-trans :
    (v w : Text) (groups : Groups) → text_ltb v w ≡ true → IsBelow w groups → IsBelow v groups
IsBelow-trans v w [] h b = tt
IsBelow-trans v w ((key, entries) ∷ groups) h b = text_ltb_trans v w key h b

ne_of_lt : (v w : Text) → text_ltb v w ≡ true → text_eq w v ≡ false
ne_of_lt v w h = ground (arith, text_eq_iff w v, text_ltb-irreflexive v)

entries_of-below :
    (w : Text) (groups : Groups) → IsBelow w groups → IsOrdered groups → entries_of w groups ≡ []
unfolding entries_of
entries_of-below w [] b o = refl
entries_of-below w ((key, entries) ∷ groups) b o =
    rw (ne_of_lt w key b) (entries_of-below w groups (IsBelow-trans w key groups b o.0) o.1)

IsBelow-push_entry :
    (v : Text) (e : AuditEntry) (groups : Groups)
    → text_ltb v e.writer_id ≡ true
    → IsBelow v groups
    → IsBelow v (push_entry e groups)
unfolding push_entry
IsBelow-push_entry v e [] h b = h
IsBelow-push_entry v e ((key, entries) ∷ groups) h b = elim (comparison e.writer_id key) [
  | same p ↦ rw p b
  | less n l ↦ rw n (rw l h)
  | more n m g ↦ rw n (rw m b)
]

IsOrdered-push_entry :
    (e : AuditEntry) (groups : Groups) → IsOrdered groups → IsOrdered (push_entry e groups)
unfolding push_entry
IsOrdered-push_entry e [] o = (tt, tt)
IsOrdered-push_entry e ((key, entries) ∷ groups) o = elim (comparison e.writer_id key) [
  | same p ↦ rw p o
  | less n l ↦ rw n (rw l (l, o))
  | more n m g ↦
      rw n (rw m (IsBelow-push_entry key e groups g o.0, IsOrdered-push_entry e groups o.1))
]

entries_of-push_entry :
    (w : Text) (e : AuditEntry) (groups : Groups)
    → IsOrdered groups
    → entries_of w (push_entry e groups)
      ≡ (if text_eq e.writer_id w then entries_of w groups ++ e ∷ [] else entries_of w groups)
unfolding entries_of push_entry
entries_of-push_entry w e [] o = refl
entries_of-push_entry w e ((key, entries) ∷ groups) o = elim (comparison e.writer_id key) [
  | same p ↦
      rw p
        (ground (arith, text_eq_iff e.writer_id key, text_eq_iff key w, text_eq_iff e.writer_id w))
  | less n l ↦ rw n (
      rw l (elim (Bool-cases (text_eq e.writer_id w)) [
        | inl q ↦
            let b : text_ltb w key ≡ true = rw ((text_eq_iff e.writer_id w).0 q) at l in
            rw q (rw (entries_of-below w ((key, entries) ∷ groups) b o))
        | inr q ↦ rw q
      ]))
  | more n m g ↦ rw n (
      rw m (
        ground (
          arith,
          entries_of-push_entry w e groups o.1,
          text_eq_iff e.writer_id key,
          text_eq_iff key w,
          text_eq_iff e.writer_id w,
        )))
]

In-push_entry :
    (e x : AuditEntry) (groups : Groups)
    → IsOrdered groups
    → (e ≡ x) ⊎ In e (entries_of e.writer_id groups)
    → In e (entries_of e.writer_id (push_entry x groups))
In-push_entry e x groups o h =
    rw (entries_of-push_entry e.writer_id x groups o)
      (elim (Bool-cases (text_eq x.writer_id e.writer_id)) [
        | inl q ↦ rw q (
            In-append e (entries_of e.writer_id groups) (x ∷ [])
              (elim h [ inl p ↦ inr (inl p) | inr i ↦ inl i ]))
        | inr q ↦ rw q (elim h [
          | inl p ↦ absurd (
              ground (
                arith,
                text_eq_iff x.writer_id e.writer_id,
                ap (λ (z : AuditEntry). z.writer_id) p,
              ))
          | inr i ↦ i
        ])
      ])

In-group_into :
    (e : AuditEntry) (entries : List AuditEntry) (groups : Groups)
    → IsOrdered groups
    → In e entries ⊎ In e (entries_of e.writer_id groups)
    → In e (entries_of e.writer_id (group_into entries groups))
unfolding group_into
In-group_into e [] groups o (inl h) = elim h [ ]
In-group_into e [] groups o (inr h) = h
In-group_into e (x ∷ entries) groups o (inl (inr h)) =
    In-group_into e entries (push_entry x groups) (IsOrdered-push_entry x groups o) (inl h)
In-group_into e (x ∷ entries) groups o (inl (inl p)) =
    In-group_into e entries (push_entry x groups) (IsOrdered-push_entry x groups o)
      (inr (In-push_entry e x groups o (inl p)))
In-group_into e (x ∷ entries) groups o (inr h) =
    In-group_into e entries (push_entry x groups) (IsOrdered-push_entry x groups o)
      (inr (In-push_entry e x groups o (inr h)))

-- Every entry stands in the group of its writer.
pub In-group_by_writer :
    (e : AuditEntry) (entries : List AuditEntry)
    → In e entries
    → In e (entries_of e.writer_id (group_by_writer entries))
unfolding group_by_writer
In-group_by_writer e entries h = In-group_into e entries [] tt (inl h)
