-- ===== src/Wsrpc/Threads/ReadRuns.antt =====
-- internal/pkg/wsrpc/rwc.go: Read of `Wsrpc` as a run of the steps of `Wsrpc.Threads`.
use arigo.Base.{
  ◌-◌, zero, ltb, ◌++◌, ℕ, suc, ◌≡◌, refl, ◌∙◌, sym, Bool, true, false, Option, none, some, List,
  [], if◌then◌else◌, Bool-cases, Option-cases, inl, inr, length,
}
use arigo.Json.{GoError, closed_pipe}
use arigo.Wsrpc.{
  WebSocket, Opened, opened, failed, closed, is_eof, read, read_with, after_read, read_loop,
}
use arigo.Wsrpc.Threads.{
  Fields, Threads, Reading, ReadAct, no_read, asks_reader, has_reader, reads, read_refused,
  read_goes_on, read_asks, reader_fails, reader_comes, reader_refused, reader_stored, read_returns,
  read_ends, reader_forgotten, read_moves, Acts, here, next,
}
use arigo.Wsrpc.Threads.Closing.{Acts-append}
use arigo.Wsrpc.Threads.Runs.{
  Calls, idle, fields, IsCounted, IsRead, taken, RunsTo, RunsTo-behind, Keeps,
}

module _ {W : Type 0} (s : WebSocket W ℕ ℕ) (calls : W → Calls) (counted : IsCounted s calls) where
  read_loop-Keeps :
      (k : Calls) (fuel : ℕ) (r : ℕ) (len : ℕ) (got : List ℕ) (w : W)
      → k ≡ calls w
      → Keeps calls (λ y. y.2) k (read_loop s fuel r len got w)
  unfolding read_loop
  read_loop-Keeps k zero r len got w h = tt
  read_loop-Keeps k (suc fuel) r len got w h =
      let (bytes, err, w') = s.read r (len - length got) w in
      let kept : k ≡ calls w' = h ∙ sym (counted.on_read r (len - length got) w) in
      let rest = read_loop-Keeps k fuel r len (got ++ bytes) w' kept in
      elim (Bool-cases (ltb (length got) len)) [
        | inr full ↦ rw full h
        | inl more ↦ elim (Option-cases err) [
          | inl quiet ↦ rw (more, quiet) rest
          | inr (e, failing) ↦ rw (more, failing) kept
        ]
      ]

  abbrev reading_at : Fields → Reading → Calls → Threads
  reading_at c a k = record (idle c k) { reading = a }

  read_step :
      {c d : Fields} {a b : Reading} {k : Calls}
      → ReadAct c a d b
      → Acts (reading_at c a k) (reading_at d b k)
  read_step act = next here (read_moves _ _ act refl)

  after_read-RunsTo :
      (c : Fields) (k : Calls) (r : ℕ) (o : Option (List ℕ × Option GoError × W))
      → c.r ≡ some r
      → Keeps calls (λ y. y.2) k o
      → RunsTo calls IsRead (reading_at c (reads r) k) (after_read s c o)
  unfolding after_read
  after_read-RunsTo c k r none stored kept = tt
  after_read-RunsTo c k r (some (got, err, w)) stored kept = elim (Bool-cases (is_eof err)) [
    | inl e ↦ rw e (
      reading_at (record c { r = none }) no_read k,
      Acts-append (read_step read_ends) (read_step (reader_forgotten stored)),
      refl,
      kept,
      refl,
    )
    | inr e ↦ rw e (reading_at c no_read k, read_step read_returns, refl, kept, refl)
  ]

  opened_reader-RunsTo :
      (k : Calls) (fuel : ℕ) (c : Fields) (meanwhile : Bool) (len : ℕ) (next_reader : Opened ℕ × W)
      → c.ws ≡ true
      → k ≡ calls next_reader.1
      → RunsTo calls IsRead (reading_at c asks_reader k) (elim next_reader.0 [
        | failed e ↦ some (if meanwhile then closed else c, [], some e, next_reader.1)
        | opened r ↦
            if meanwhile
            then some (closed, [], some closed_pipe, next_reader.1)
            else read_with s fuel (record c { r = some r }) r len next_reader.1
      ])
  unfolding read_with
  opened_reader-RunsTo k fuel c true len (failed e, w) there h = (
    _,
    next (taken (reading_at c asks_reader k)) (read_moves _ no_read reader_fails refl),
    refl,
    h,
    refl,
  )
  opened_reader-RunsTo k fuel c false len (failed e, w) there h =
      (reading_at c no_read k, read_step reader_fails, refl, h, refl)
  opened_reader-RunsTo k fuel c true len (opened r, w) there h = (
    _,
    next (Acts-append (read_step (reader_comes r)) (taken (reading_at c (has_reader r) k)))
        (read_moves _ no_read (reader_refused refl) refl),
    refl,
    h,
    refl,
  )
  opened_reader-RunsTo k fuel c false len (opened r, w) there h =
      RunsTo-behind calls IsRead _ (reading_at (record c { r = some r }) (reads r) k) _
        (Acts-append (read_step (reader_comes r)) (read_step (reader_stored there)))
        (after_read-RunsTo (record c { r = some r }) k r _ refl
          (read_loop-Keeps k fuel r len [] w h))

  -- By the fields of the struct.
  read_fields-RunsTo :
      (fuel : ℕ) (meanwhile : Bool) (len : ℕ) (w : W) (ws : Bool) (r v : Option ℕ)
      → RunsTo calls IsRead
          (idle (fields ws r v) (calls w))
          (read s fuel (fields ws r v) meanwhile len w)
  unfolding read read_with
  read_fields-RunsTo fuel meanwhile len w false r v =
      (_, read_step (read_refused refl), refl, refl, refl)
  read_fields-RunsTo fuel meanwhile len w true (some r) v =
      RunsTo-behind calls IsRead _ (reading_at _ (reads r) (calls w)) _
        (read_step (read_goes_on refl refl))
        (after_read-RunsTo _ (calls w) r _ refl (read_loop-Keeps _ fuel r len [] w refl))
  read_fields-RunsTo fuel meanwhile len w true none v =
      RunsTo-behind calls IsRead _ (reading_at _ asks_reader (calls w)) _
        (read_step (read_asks refl refl))
        (opened_reader-RunsTo (calls w) fuel _ meanwhile len (s.next_reader w) refl
          (sym (counted.on_next_reader w)))

  pub read-RunsTo :
      (fuel : ℕ) (c : Fields) (meanwhile : Bool) (len : ℕ) (w : W)
      → RunsTo calls IsRead (idle c (calls w)) (read s fuel c meanwhile len w)
  read-RunsTo fuel c meanwhile len w = read_fields-RunsTo fuel meanwhile len w c.ws c.r c.w
