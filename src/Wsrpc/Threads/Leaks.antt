-- ===== src/Wsrpc/Threads/Leaks.antt =====
-- The writers that Write opens, and who has still to end them.
use mathlib.Core.List.{Memᴰ}
use mathlib.Core.Option.{some-injective}
use arigo.Base.{
  ℕ, ◌<◌, ◌≡◌, ◌⊎◌, inl, inr, refl, ap, sym, ◌∙◌, subst, Bool, false, Option, none, some, List, [],
  ◌∷◌, arith,
}
use arigo.Wsrpc.{closed}
use arigo.Wsrpc.Threads.{
  Fields, Threads, start, Reading, Writing, no_write, asks_writer, has_writer, writes, wrote_all,
  has_ended, gives_up, Writers, end_writer, ReadAct, Picks, first, later, Act, read_moves,
  write_moves, close_takes, close_ends, close_fails, close_returns, Acts, here, next,
}
use arigo.Wsrpc.Threads.Closing.{ReadAct-kept, Acts-IsShut, start-IsShut}
use arigo.Wsrpc.Threads.Owners.{
  Holds, Took, Owner, is_ended, is_stored, is_taken, is_held, IsDone, IsTracked, WriteAct-IsTracked,
}

ReadAct-IsTracked :
    {c d : Fields} {x y : Reading} {a : Writing} {v : Writers} {cl : List (Option ℕ × Bool)}
    → ReadAct c x d y
    → IsTracked c a v cl
    → IsTracked d a v cl
ReadAct-IsTracked {c} {d} {a = a} {v} {cl} act t =
    let same = (ReadAct-kept act).1 in
    record { owned = λ h lt. go same h (t.owned h lt); bare = λ o. same ∙ t.bare o; done = t.done }
  where
    go : d.w ≡ c.w → (h : ℕ) → Owner h c a v cl → Owner h d a v cl
    go same h (is_ended m) = is_ended m
    go same h (is_stored e) = is_stored (same ∙ e)
    go same h (is_taken m) = is_taken m
    go same h (is_held q) = is_held q

-- A Close takes what is stored.
taken-IsTracked :
    {c : Fields} {a : Writing} {v : Writers} {cl : List (Option ℕ × Bool)}
    → IsTracked c a v cl
    → IsTracked closed a v ((c.w, c.ws) ∷ cl)
taken-IsTracked {c} {a} {v} {cl} t = record {
  owned = λ h lt. go h (t.owned h lt);
  bare = λ o. refl;
  done = t.done;
}
  where
    go : (h : ℕ) → Owner h c a v cl → Owner h closed a v ((c.w, c.ws) ∷ cl)
    go h (is_ended m) = is_ended m
    go h (is_stored e) = is_taken (inl e)
    go h (is_taken m) = is_taken (inr m)
    go h (is_held q) = is_held q

Picks-Took :
    {x : Option ℕ × Bool} {cl others : List (Option ℕ × Bool)} (h : ℕ)
    → Picks x cl others
    → Took h cl
    → (x.0 ≡ some h) ⊎ Took h others
Picks-Took h first m = m
Picks-Took h (later p) (inl e) = inr (inl e)
Picks-Took h (later p) (inr m) = elim (Picks-Took h p m) [ inl e ↦ inl e | inr k ↦ inr (inr k) ]

IsDone-ended : (a : Writing) (v : Writers) (w : ℕ) → IsDone a v → IsDone a (end_writer w v)
IsDone-ended (has_ended k) v w m = Memᴰ.tail m
IsDone-ended no_write v w m = tt
IsDone-ended asks_writer v w m = tt
IsDone-ended (has_writer k) v w m = tt
IsDone-ended (writes k) v w m = tt
IsDone-ended (wrote_all k) v w m = tt
IsDone-ended (gives_up k) v w m = tt

-- A Close calls Close of the writer that it took.
ended-IsTracked :
    {c : Fields} {a : Writing} {v : Writers} {cl rest : List (Option ℕ × Bool)} (w : ℕ)
    → ((h : ℕ) → Took h cl → (w ≡ h) ⊎ Took h rest)
    → IsTracked c a v cl
    → IsTracked c a (end_writer w v) rest
ended-IsTracked {c} {a} {v} {cl} {rest = rest} w split t = record {
  owned = λ h lt. go h (t.owned h lt);
  bare = t.bare;
  done = IsDone-ended a v w t.done;
}
  where
    go : (h : ℕ) → Owner h c a v cl → Owner h c a (end_writer w v) rest
    go h (is_ended m) = is_ended (Memᴰ.tail m)
    go h (is_stored e) = is_stored e
    go h (is_taken m) = elim (split h m) [
      | inl e ↦ is_ended (Memᴰ.head (sym e))
      | inr k ↦ is_taken k
    ]
    go h (is_held q) = is_held q

returned-IsTracked :
    {c : Fields} {a : Writing} {v : Writers} {cl others : List (Option ℕ × Bool)} {ws : Bool}
    → Picks (none, ws) cl others
    → IsTracked c a v cl
    → IsTracked c a v others
returned-IsTracked {c} {a} {v} {cl} {others} p t = record {
  owned = λ h lt. go h (t.owned h lt);
  bare = t.bare;
  done = t.done;
}
  where
    go : (h : ℕ) → Owner h c a v cl → Owner h c a v others
    go h (is_ended m) = is_ended m
    go h (is_stored e) = is_stored e
    go h (is_taken m) = elim (Picks-Took h p m) [ inl e ↦ absurd cc | inr k ↦ is_taken k ]
    go h (is_held q) = is_held q

abbrev Tracks : Threads → Type 0
Tracks s = IsTracked s.rwc s.writing s.writers s.closing

Took-some :
    {w h : ℕ} (others : List (Option ℕ × Bool))
    → ((some w) ≡ some h) ⊎ Took h others
    → (w ≡ h) ⊎ Took h others
Took-some {w} {h} others (inl e) = inl (some-injective w h e)
Took-some others (inr m) = inr m

Act-Tracks : {s t : Threads} → Act s t → Tracks s → Tracks t
Act-Tracks (read_moves c b act e) k = rw e (ReadAct-IsTracked act k)
Act-Tracks (write_moves c b v act e) k = rw e (WriteAct-IsTracked act k)
Act-Tracks (close_takes e) k = rw e (taken-IsTracked k)
Act-Tracks (close_ends w ws others p e) k = rw e (
    ended-IsTracked w
      (λ h m. elim (Took-some others (Picks-Took h p m)) [ inl q ↦ inl q | inr n ↦ inr (inr n) ]) k)
Act-Tracks (close_fails w ws others p e) k =
    rw e (ended-IsTracked w (λ h m. Took-some others (Picks-Took h p m)) k)
Act-Tracks (close_returns ws others p e) k = rw e (returned-IsTracked p k)

Acts-Tracks : {s : Threads} → Acts start s → Tracks s
Acts-Tracks here = record { owned = λ h lt. absurd (omega arith); bare = λ o. refl; done = tt }
Acts-Tracks (next run act) = Act-Tracks act (Acts-Tracks run)

-- Whatever the order in which Read, Write and any number of Closes ran: once the connection was
-- taken and no Write and no Close runs any more, Close was called of every writer that the
-- connection opened.
pub no_writer_leaks :
    (s : Threads)
    → Acts start s
    → s.rwc.ws ≡ false
    → s.writing ≡ no_write
    → s.closing ≡ []
    → (h : ℕ) → h < s.writers.opened
    → Memᴰ h s.writers.ended
no_writer_leaks s run gone resting none_left h lt = found ((Acts-Tracks run).owned h lt)
  where
    found : Owner h s.rwc s.writing s.writers s.closing → Memᴰ h s.writers.ended
    found (is_ended m) = m
    found (is_stored e) =
        let bare = ap (λ (c : Fields). c.w) (Acts-IsShut run start-IsShut gone) in absurd cc
    found (is_taken m) = absurd (subst (Took h) none_left m)
    found (is_held q) = absurd (subst (Holds h) resting q)
