-- ===== src/Wsrpc.antt =====
-- internal/pkg/wsrpc/rwc.go: a byte stream over the messages of a WebSocket. The connection of
-- gorilla/websocket is a parameter: its calls act on a world `W`, with readers of a type `R` and
-- writers of a type `V`. A buffer is its length when it is read into, and its bytes when it is
-- written. A loop that runs out of fuel gives `none`.
pub mod Reads
pub mod Writes
pub mod Stream
pub mod Returns
pub mod Threads
mod Tests
mod ThreadTests
use arigo.Base.{
  ℕ, zero, suc, ◌+◌, ◌-◌, Bool, true, false, Option, none, some, List, [], ◌∷◌, ◌++◌, ltb, ◌==◌,
  if◌then◌else◌, length, drop,
}
use arigo.Json.{GoError, eof, closed_pipe}

pub data Opened (A : Type 0) : Type 0 where
  opened : A → Opened A
  failed : GoError → Opened A

pub record WebSocket (W R V : Type 0) : Type 0 where
  pub next_reader : W → Opened R × W
  pub read : R → ℕ → W → List ℕ × Option GoError × W
  pub next_writer : W → Opened V × W
  pub write : V → List ℕ → W → ℕ × Option GoError × W
  pub close_writer : V → W → Option GoError × W
  pub close_conn : W → Option GoError × W

-- `ws` tells whether the connection is there: Close sets it to nil.
pub record ReadWriteCloser (R V : Type 0) : Type 0 where
  pub ws : Bool
  pub r : Option R
  pub w : Option V

module _ {R V : Type 0} where
  abbrev pub new_read_write_closer : ReadWriteCloser R V
  new_read_write_closer = record { ws = true; r = none; w = none }

  -- The fields once Close has run.
  abbrev pub closed : ReadWriteCloser R V
  closed = record { ws = false; r = none; w = none }

abbrev pub is_eof : Option GoError → Bool
is_eof (some eof) = true
is_eof _ = false

module _ {W R V : Type 0} (s : WebSocket W R V) where
  abbrev Rwc : Type 0
  Rwc = ReadWriteCloser R V

  -- for n = 0; n < len(p); { m, err = r.Read(p[n:]); n += m; ... }
  pub read_loop : ℕ → R → ℕ → List ℕ → W → Option (List ℕ × Option GoError × W)
  read_loop zero r len got w = none
  read_loop (suc fuel) r len got w =
      let (bytes, err, w') = s.read r (len - length got) w in
      let more = read_loop fuel r len (got ++ bytes) w' in
      if ltb (length got) len
      then elim err [ none ↦ more | some e ↦ some (got ++ bytes, some e, w') ]
      else some (got, none, w)

  -- Where the loop meets the end of the message, the reader is forgotten.
  pub after_read :
      Rwc → Option (List ℕ × Option GoError × W) → Option (Rwc × List ℕ × Option GoError × W)
  after_read rwc none = none
  after_read rwc (some (got, err, w)) =
      some (if is_eof err then record rwc { r = none } else rwc, got, err, w)

  -- A Read once the reader is known; `rwc` holds it. (A Close during the loop clears the field as
  -- well, and then there is nothing to forget.)
  pub read_with : ℕ → Rwc → R → ℕ → W → Option (Rwc × List ℕ × Option GoError × W)
  unfolding after_read
  read_with fuel rwc r len w = after_read rwc (read_loop fuel r len [] w)

  -- `meanwhile` tells whether another goroutine ran Close while NextReader waited.
  pub read : ℕ → Rwc → Bool → ℕ → W → Option (Rwc × List ℕ × Option GoError × W)
  unfolding read_with
  read fuel rwc meanwhile len w =
      if rwc.ws
      then (elim rwc.r [
        | some r ↦ read_with fuel rwc r len w
        | none ↦
            let (next, w') = s.next_reader w in
            elim next [
              | failed e ↦ some (if meanwhile then closed else rwc, [], some e, w')
              | opened r ↦
                  if meanwhile
                  then some (closed, [], some closed_pipe, w')
                  else read_with fuel (record rwc { r = some r }) r len w'
            ]
      ])
      else some (rwc, [], some closed_pipe, w)

  -- for n = 0; n < len(p); { m, err := w.Write(p[n:]); n += m; if err != nil { break } }
  -- The error that breaks the loop is a variable of the loop's body alone.
  pub write_loop : ℕ → V → List ℕ → ℕ → W → Option (ℕ × W)
  write_loop zero v p n w = none
  write_loop (suc fuel) v p n w =
      let (m, err, w') = s.write v (drop n p) w in
      let more = write_loop fuel v p (n + m) w' in
      if ltb n (length p) then elim err [ none ↦ more | some e ↦ some (n + m, w') ] else some (n, w)

  -- The rest of Write: `err` is still nil where the loop ends.
  pub after_write : Rwc → V → List ℕ → Option (ℕ × W) → Option (Rwc × ℕ × Option GoError × W)
  after_write rwc v p none = none
  after_write rwc v p (some (n, w)) =
      let (err, w') = s.close_writer v w in
      if n == length p then some (record rwc { w = none }, n, err, w') else some (rwc, n, none, w)

  pub write_with : ℕ → Rwc → V → List ℕ → W → Option (Rwc × ℕ × Option GoError × W)
  unfolding after_write
  write_with fuel rwc v p w = after_write rwc v p (write_loop fuel v p 0 w)

  -- `meanwhile` tells whether another goroutine ran Close while NextWriter waited.
  pub write : ℕ → Rwc → Bool → List ℕ → W → Option (Rwc × ℕ × Option GoError × W)
  unfolding write_with
  write fuel rwc meanwhile p w =
      if rwc.ws
      then (elim rwc.w [
        | some v ↦ write_with fuel rwc v p w
        | none ↦
            let (next, w') = s.next_writer w in
            elim next [
              | failed e ↦ some (if meanwhile then closed else rwc, 0, some e, w')
              | opened v ↦
                  if meanwhile
                  then (let (_, w'') = s.close_writer v w' in
                      some (closed, 0, some closed_pipe, w''))
                  else write_with fuel (record rwc { w = some v }) v p w'
            ]
      ])
      else some (rwc, 0, some closed_pipe, w)

  -- ws.Close(), if the connection was there.
  close_socket : Bool → W → Option GoError × W
  close_socket true w = s.close_conn w
  close_socket false w = (none, w)

  pub close : Rwc → W → Rwc × Option GoError × W
  unfolding close_socket
  close rwc w = elim rwc.w [
    | none ↦ let (err, w') = close_socket rwc.ws w in (closed, err, w')
    | some v ↦
        let (err, w') = s.close_writer v w in
        elim err [
          | some e ↦ (closed, some e, w')
          | none ↦ let (err', w'') = close_socket rwc.ws w' in (closed, err', w'')
        ]
  ]
