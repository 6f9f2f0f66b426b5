-- ===== src/Wsrpc/Threads/WriteRuns.antt =====
-- internal/pkg/wsrpc/rwc.go: Write of `Wsrpc` as a run of the steps of `Wsrpc.Threads`.
use arigo.Base.{
  ◌+◌, zero, drop, ltb, ℕ, suc, ◌≡◌, refl, ap, ◌∙◌, sym, subst, Bool, true, false, Option, none,
  some, List, if◌then◌else◌, Bool-cases, Option-cases, inl, inr, length, ◌==◌,
}
use arigo.Json.{closed_pipe}
use arigo.Wsrpc.{
  WebSocket, Opened, opened, failed, closed, write, write_with, after_write, write_loop,
}
use arigo.Wsrpc.Threads.{
  Fields, Threads, WriteAct, Writing, no_write, asks_writer, has_writer, writes, gives_up, Writers,
  write_refused, write_goes_on, write_asks, writer_fails, writer_comes, writer_refused,
  writer_given_up, writer_stored, write_breaks, write_completes, writer_ends, writer_forgotten,
  write_moves, Acts, here, next,
}
use arigo.Wsrpc.Threads.Closing.{Acts-append}
use arigo.Wsrpc.Threads.Runs.{
  Calls, idle, fields, one_more, ended_too, IsCounted, IsWritten, taken, RunsTo, RunsTo-behind,
  Keeps,
}

module _ {W : Type 0} (s : WebSocket W ℕ ℕ) (calls : W → Calls) (counted : IsCounted s calls) where
  write_loop-Keeps :
      (k : Calls) (fuel : ℕ) (v : ℕ) (p : List ℕ) (n : ℕ) (w : W)
      → k ≡ calls w
      → Keeps calls (λ y. y.1) k (write_loop s fuel v p n w)
  unfolding write_loop
  write_loop-Keeps k zero v p n w h = tt
  write_loop-Keeps k (suc fuel) v p n w h =
      let (m, err, w') = s.write v (drop n p) w in
      let kept : k ≡ calls w' = h ∙ sym (counted.on_write v (drop n p) w) in
      let rest = write_loop-Keeps k fuel v p (n + m) w' kept in
      elim (Bool-cases (ltb n (length p))) [
        | inr full ↦ rw full h
        | inl more ↦ elim (Option-cases err) [
          | inl quiet ↦ rw (more, quiet) rest
          | inr (e, failing) ↦ rw (more, failing) kept
        ]
      ]

  abbrev writing_at : Fields → Writing → Calls → Threads
  writing_at c a k = record (idle c k) { writing = a }

  write_step :
      {c d : Fields} {a b : Writing} {k : Calls} {v : Writers}
      → WriteAct c k.0 a d b v
      → Acts (writing_at c a k) (writing_at d b (v, k.1))
  write_step act = next here (write_moves _ _ _ act refl)

  after_write-RunsTo :
      (c : Fields) (k : Calls) (n : ℕ) (p : List ℕ) (o : Option (ℕ × W))
      → c.w ≡ some n
      → Keeps calls (λ y. y.1) k o
      → RunsTo calls IsWritten (writing_at c (writes n) k) (after_write s c n p o)
  unfolding after_write
  after_write-RunsTo c k n p none stored kept = tt
  after_write-RunsTo c k n p (some (sent, w)) stored kept = elim (Bool-cases (sent == length p)) [
    | inl e ↦ rw e (
      writing_at (record c { w = none }) no_write (ended_too n k),
      Acts-append (Acts-append (write_step write_completes) (write_step writer_ends))
          (write_step (writer_forgotten stored)),
      refl,
      ap (ended_too n) kept ∙ sym (counted.on_close_writer n w),
      refl,
    )
    | inr e ↦ rw e (writing_at c no_write k, write_step write_breaks, refl, kept, refl)
  ]

  writer_came :
      {c : Fields} {k : Calls} {n : ℕ}
      → k.0.opened ≡ n
      → Acts (writing_at c asks_writer k) (writing_at c (has_writer n) (one_more k))
  writer_came {c} {k} same =
      subst (λ n. Acts (writing_at c asks_writer k) (writing_at c (has_writer n) (one_more k))) same
        (write_step writer_comes)

  opened_writer-RunsTo :
      (fuel : ℕ) (c : Fields) (meanwhile : Bool) (p : List ℕ) (w : W) (next_writer : Opened ℕ × W)
      → c.ws ≡ true
      → s.next_writer w ≡ next_writer
      → RunsTo calls IsWritten (writing_at c asks_writer (calls w)) (elim next_writer.0 [
        | failed e ↦ some (if meanwhile then closed else c, 0, some e, next_writer.1)
        | opened n ↦
            if meanwhile
            then (let (_, w') = s.close_writer n next_writer.1 in
                some (closed, 0, some closed_pipe, w'))
            else write_with s fuel (record c { w = some n }) n p next_writer.1
      ])
  unfolding write_with
  opened_writer-RunsTo fuel c true p w (failed e, w') there came = (
    _,
    next (taken (writing_at c asks_writer (calls w))) (write_moves _ no_write _ writer_fails refl),
    refl,
    sym (counted.on_failed e w w' came),
    refl,
  )
  opened_writer-RunsTo fuel c false p w (failed e, w') there came = (
    writing_at c no_write (calls w),
    write_step writer_fails,
    refl,
    sym (counted.on_failed e w w' came),
    refl,
  )
  opened_writer-RunsTo fuel c true p w (opened n, w') there came =
      let (same, more) = counted.on_opened n w w' came in
      (
        _,
        next
            (next
              (Acts-append (writer_came same)
                (taken (writing_at c (has_writer n) (one_more (calls w)))))
              (write_moves _ (gives_up n) _ (writer_refused refl) refl))
            (write_moves _ no_write _ writer_given_up refl),
        refl,
        sym (counted.on_close_writer n w' ∙ ap (ended_too n) more),
        refl,
      )
  opened_writer-RunsTo fuel c false p w (opened n, w') there came =
      let (same, more) = counted.on_opened n w w' came in
      RunsTo-behind calls IsWritten _
        (writing_at (record c { w = some n }) (writes n) (one_more (calls w))) _
        (Acts-append (writer_came same) (write_step (writer_stored there)))
        (after_write-RunsTo (record c { w = some n }) _ n p _ refl
          (write_loop-Keeps _ fuel n p 0 w' (sym more)))

  write_fields-RunsTo :
      (fuel : ℕ) (meanwhile : Bool) (p : List ℕ) (w : W) (ws : Bool) (r v : Option ℕ)
      → RunsTo calls IsWritten
          (idle (fields ws r v) (calls w))
          (write s fuel (fields ws r v) meanwhile p w)
  unfolding write write_with
  write_fields-RunsTo fuel meanwhile p w false r v =
      (_, write_step (write_refused refl), refl, refl, refl)
  write_fields-RunsTo fuel meanwhile p w true r (some n) =
      RunsTo-behind calls IsWritten _ (writing_at _ (writes n) (calls w)) _
        (write_step (write_goes_on refl refl))
        (after_write-RunsTo _ _ n p _ refl (write_loop-Keeps _ fuel n p 0 w refl))
  write_fields-RunsTo fuel meanwhile p w true r none =
      RunsTo-behind calls IsWritten _ (writing_at _ asks_writer (calls w)) _
        (write_step (write_asks refl refl))
        (opened_writer-RunsTo fuel _ meanwhile p w (s.next_writer w) refl refl)

  pub write-RunsTo :
      (fuel : ℕ) (c : Fields) (meanwhile : Bool) (p : List ℕ) (w : W)
      → RunsTo calls IsWritten (idle c (calls w)) (write s fuel c meanwhile p w)
  write-RunsTo fuel c meanwhile p w = write_fields-RunsTo fuel meanwhile p w c.ws c.r c.w
