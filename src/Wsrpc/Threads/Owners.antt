-- ===== src/Wsrpc/Threads/Owners.antt =====
-- Who has still to end a writer that Write opened, while Write moves.
use mathlib.Core.List.{Memᴰ}
use mathlib.Core.Option.{some-injective}
use arigo.Base.{
  ℕ, ◌<◌, ◌≡◌, ◌⊎◌, inl, inr, refl, ap, sym, ◌∙◌, subst, Bool, Option, none, some, List, [],
  Bool-cases, ltb, ◌∷◌, arith,
}
use arigo.Wsrpc.Threads.{
  Fields, Writing, asks_writer, has_writer, has_ended, gives_up, Writers, WriteAct, write_asks,
  writer_comes, writer_refused, writer_given_up, writer_stored, writer_ends, writer_forgotten,
}

-- A Write that has the writer and has not stored it.
abbrev pub Holds : ℕ → Writing → Type 0
Holds h (has_writer w) = w ≡ h
Holds h (gives_up w) = w ≡ h
Holds h _ = ⊥

-- A Close that took the writer.
abbrev pub Took : ℕ → List (Option ℕ × Bool) → Type 0
Took h [] = ⊥
Took h (c ∷ cs) = (c.0 ≡ some h) ⊎ Took h cs

-- Close of the writer was called, or the struct, a Close or the Write has it.
pub data Owner (h : ℕ) (c : Fields) (a : Writing) (v : Writers) (cl : List (Option ℕ × Bool))
    : Type 0 where
  is_ended : Memᴰ h v.ended → Owner h c a v cl
  is_stored : c.w ≡ some h → Owner h c a v cl
  is_taken : Took h cl → Owner h c a v cl
  is_held : Holds h a → Owner h c a v cl

abbrev pub Opens : Writing → Type 0
Opens asks_writer = Unit
Opens (has_writer w) = Unit
Opens _ = ⊥

abbrev pub IsDone : Writing → Writers → Type 0
IsDone (has_ended w) v = Memᴰ w v.ended
IsDone _ v = Unit

pub record IsTracked (c : Fields) (a : Writing) (v : Writers) (cl : List (Option ℕ × Bool))
    : Type 0 where
  pub owned : (h : ℕ) → h < v.opened → Owner h c a v cl
  pub bare : Opens a → c.w ≡ none
  pub done : IsDone a v

module _ {c : Fields} {v : Writers} where
  WriteAct-ended :
      {a b : Writing} {d : Fields} {u : Writers} {h : ℕ}
      → WriteAct c v a d b u
      → Memᴰ h v.ended
      → Memᴰ h u.ended
  WriteAct-ended writer_given_up m = Memᴰ.tail m
  WriteAct-ended writer_ends m = Memᴰ.tail m
  WriteAct-ended _ m = m

  WriteAct-bare :
      {a b : Writing} {d : Fields} {u : Writers}
      → WriteAct c v a d b u
      → (Opens a → c.w ≡ none)
      → Opens b
      → d.w ≡ none
  WriteAct-bare (write_asks t e) bare o = e
  WriteAct-bare writer_comes bare o = bare tt
  WriteAct-bare _ bare o = absurd o

  WriteAct-IsDone : {a b : Writing} {d : Fields} {u : Writers} → WriteAct c v a d b u → IsDone b u
  WriteAct-IsDone writer_ends = Memᴰ.head refl
  WriteAct-IsDone _ = tt

  module _ {cl : List (Option ℕ × Bool)} where
    WriteAct-stored :
        {a b : Writing} {d : Fields} {u : Writers} {h : ℕ}
        → WriteAct c v a d b u
        → (Opens a → c.w ≡ none)
        → IsDone a v
        → c.w ≡ some h
        → Owner h d b u cl
    WriteAct-stored (writer_stored t) bare done e = let empty = bare tt in absurd cc
    WriteAct-stored (writer_forgotten {w} q) bare done e =
        is_ended (subst (λ k. Memᴰ k v.ended) (some-injective w _ (sym q ∙ e)) done)
    WriteAct-stored _ bare done e = is_stored e

    WriteAct-held :
        {a b : Writing} {d : Fields} {u : Writers} {h : ℕ}
        → WriteAct c v a d b u
        → Holds h a
        → Owner h d b u cl
    WriteAct-held (writer_refused t) q = is_held q
    WriteAct-held writer_given_up q = is_ended (Memᴰ.head (sym q))
    WriteAct-held (writer_stored t) q = is_stored (ap (λ (w : ℕ). some w) q)
    WriteAct-held _ q = absurd q

    WriteAct-Owner :
        {a b : Writing} {d : Fields} {u : Writers} {h : ℕ}
        → WriteAct c v a d b u
        → IsTracked c a v cl
        → Owner h c a v cl
        → Owner h d b u cl
    WriteAct-Owner act t (is_ended m) = is_ended (WriteAct-ended act m)
    WriteAct-Owner act t (is_stored e) = WriteAct-stored act t.bare t.done e
    WriteAct-Owner act t (is_taken m) = is_taken m
    WriteAct-Owner act t (is_held q) = WriteAct-held act q

    -- A writer that was opened before, or the one that is opened now.
    WriteAct-opened :
        {a b : Writing} {d : Fields} {u : Writers} (h : ℕ)
        → WriteAct c v a d b u
        → h < u.opened
        → (h < v.opened) ⊎ Owner h d b u cl
    WriteAct-opened h writer_comes lt = elim (Bool-cases (ltb h v.opened)) [
      | inl q ↦ inl (ground (arith, q))
      | inr q ↦ inr (is_held (ground (arith, q, lt)))
    ]
    WriteAct-opened h _ lt = inl lt

    pub WriteAct-IsTracked :
        {a b : Writing} {d : Fields} {u : Writers}
        → WriteAct c v a d b u
        → IsTracked c a v cl
        → IsTracked d b u cl
    WriteAct-IsTracked act t = record {
      owned = λ h lt. elim (WriteAct-opened h act lt) [
        | inl old ↦ WriteAct-Owner act t (t.owned h old)
        | inr new ↦ new
      ];
      bare = WriteAct-bare act t.bare;
      done = WriteAct-IsDone act;
    }
