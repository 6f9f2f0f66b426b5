-- ===== src/Wsrpc/Tests.antt =====
-- Two WebSockets to run the stream on, runs of it, and the theorems at inputs.
use arigo.Base.{
  ℕ, zero, suc, ◌≡◌, ◌≤◌, ◌<◌, refl, ap, sym, true, false, Option, none, some, List, [], ◌∷◌, ◌++◌,
  arith, length, take, drop,
}
use arigo.Json.{GoError, eof, closed_pipe, other}
use arigo.Wsrpc.{
  WebSocket, ReadWriteCloser, Opened, opened, failed, closed, read, write, close, read_loop,
}
use arigo.Wsrpc.Reads.{IsReader, ReadsOn, read-Got}
use arigo.Wsrpc.Stream.{IsSource, reads, ahead, reads_in_order}
use arigo.Wsrpc.Returns.{IsMoving, returns, read_write-returns}
use arigo.Wsrpc.Writes.{IsWriter, write_all, failing_writer}

abbrev One : Type 0
One = Unit {0}

abbrev end_of : List ℕ → Option GoError
end_of [] = some eof
end_of (x ∷ xs) = none

-- The world is the rest of the message, and what is written goes behind it.
abbrev loopback : WebSocket (List ℕ) One One
loopback = record {
  next_reader = λ w. (opened tt, w);
  read = λ r k w. (take k w, end_of w, drop k w);
  next_writer = λ w. (opened tt, w);
  write = λ v p w. (length p, none, w ++ p);
  close_writer = λ v w. (none, w);
  close_conn = λ w. (none, w);
}

-- A connection that takes one byte and fails.
abbrev cut_off : WebSocket (List ℕ) One One
cut_off = record loopback {
  write = λ v p w. (1, some (other "broken pipe"), w ++ take 1 p);
  close_writer = λ v w. (some (other "broken pipe"), w);
}

abbrev at_hand : ReadWriteCloser One One
at_hand = record { ws = true; r = some tt; w = some tt }

take-drop : (k : ℕ) (w : List ℕ) → w ≡ take k w ++ drop k w
take-drop zero w = refl
take-drop (suc k) [] = refl
take-drop (suc k) (x ∷ w) = ap (λ l. x ∷ l) (take-drop k w)

take-fits : (k : ℕ) (w : List ℕ) → length (take k w) ≤ k
take-fits zero w = omega arith
take-fits (suc k) [] = omega arith
take-fits (suc k) (x ∷ w) = omega (arith, take-fits k w)

take-moves : (k : ℕ) (w : List ℕ) → 0 < k → end_of w ≡ none → 0 < length (take k w)
take-moves zero w h e = elim h [ ]
take-moves (suc k) [] h e = cc
take-moves (suc k) (x ∷ w) h e = omega arith

drop-ends : (k : ℕ) (w : List ℕ) → end_of w ≡ some eof → drop k w ≡ []
drop-ends zero [] e = refl
drop-ends (suc k) [] e = refl
drop-ends k (x ∷ w) e = cc

loopback-IsReader : IsReader loopback (λ w. w) tt
loopback-IsReader = record {
  splits = take-drop;
  fits = take-fits;
  moves = take-moves;
  ends = drop-ends;
}

take-length : (p : List ℕ) → take (length p) p ≡ p
take-length [] = refl
take-length (x ∷ p) = ap (λ q. x ∷ q) (take-length p)

loopback-IsWriter : IsWriter loopback (λ w. w) tt
loopback-IsWriter = record {
  takes = λ p w e. refl;
  appends = λ p w. ap (◌++◌ w) (sym (take-length p));
}

-- A message of exactly the buffer's length is read without EOF, and the next Read has nothing but
-- EOF, with the connection still open.
read_exact :
    read loopback 4 at_hand false 3 (1 ∷ 2 ∷ 3 ∷ []) ≡ some (at_hand, 1 ∷ 2 ∷ 3 ∷ [], none, [])
unfolding read read_loop
read_exact = refl

read_behind :
    read loopback 4 at_hand false 3 [] ≡ some (record at_hand { r = none }, [], some eof, [])
unfolding read read_loop
read_behind = refl

read-Got_example : ReadsOn loopback (λ w. w) tt 4 3 at_hand false (1 ∷ 2 ∷ [])
read-Got_example =
    read-Got loopback (λ w. w) tt loopback-IsReader 4 3 at_hand false (1 ∷ 2 ∷ []) (omega arith)
      refl refl

write_all_example :
    (w₁ : List ℕ) × (w₁ ≡ 1 ∷ 2 ∷ 3 ∷ [])
    × (write loopback 2 at_hand false (2 ∷ 3 ∷ []) (1 ∷ [])
        ≡ some (record at_hand { w = none }, 2, none, w₁))
write_all_example =
    write_all loopback (λ w. w) tt 0 at_hand false (2 ∷ 3 ∷ []) (1 ∷ []) loopback-IsWriter refl refl
      (omega arith) refl

failing_writer_example :
    (write cut_off 2 at_hand false (2 ∷ 3 ∷ []) [] ≡ some (at_hand, 1, none, 2 ∷ []))
    × (close cut_off at_hand (2 ∷ []) ≡ (closed, some (other "broken pipe"), 2 ∷ []))
    × (close cut_off (close cut_off at_hand (2 ∷ [])).0 [] ≡ (closed, none, []))
failing_writer_example =
    failing_writer cut_off tt 0 at_hand false (2 ∷ 3 ∷ []) [] (2 ∷ []) [] (other "broken pipe")
      (other "broken pipe") refl refl (omega arith) refl (omega arith) refl

-- A connection of several messages: what is left of the open one, and the ones behind it.
abbrev joined : List (List ℕ) → List ℕ
joined [] = []
joined (m ∷ ms) = m ++ joined ms

record Messages : Type 0 where
  open_one : List ℕ
  behind : List (List ℕ)

abbrev next_message : List ℕ → List (List ℕ) → Opened One × Messages
next_message m [] = (failed closed_pipe, record { open_one = m; behind = [] })
next_message m (m' ∷ ms) = (opened tt, record { open_one = m'; behind = ms })

abbrev several : WebSocket (Messages) One One
several = record {
  next_reader = λ w. next_message w.open_one w.behind;
  read = λ r k w. (take k w.open_one, end_of w.open_one, record w { open_one = drop k w.open_one });
  next_writer = λ w. (opened tt, w);
  write = λ v p w. (length p, none, w);
  close_writer = λ v w. (none, w);
  close_conn = λ w. (none, w);
}

joined-opens :
    (m : List ℕ) (ms : List (List ℕ)) (w' : Messages)
    → next_message m ms ≡ (opened tt, w')
    → joined ms ≡ w'.open_one ++ joined w'.behind
joined-opens m [] w' e = cc
joined-opens m (m' ∷ ms) w' e = ap (λ x. x.1.open_one ++ joined x.1.behind) e

joined-fails :
    (e : GoError) (m : List ℕ) (ms : List (List ℕ)) (w' : Messages)
    → next_message m ms ≡ (failed e, w')
    → joined ms ≡ joined w'.behind
joined-fails e m [] w' q = ap (λ x. joined x.1.behind) q
joined-fails e m (m' ∷ ms) w' q = cc

several-IsSource : IsSource several (λ r w. w.open_one) (λ w. joined w.behind)
several-IsSource = record {
  reader = λ r. record {
    splits = λ k w. take-drop k w.open_one;
    fits = λ k w. take-fits k w.open_one;
    moves = λ k w. take-moves k w.open_one;
    ends = λ k w. drop-ends k w.open_one;
  };
  kept = λ r k w. refl;
  opens = λ r w w' e. joined-opens w.open_one w.behind w' e;
  fails = λ e w w' q. joined-fails e w.open_one w.behind w' q;
}

abbrev unread : ReadWriteCloser One One
unread = record { ws = true; r = none; w = none }

abbrev two_messages : Messages
two_messages = record { open_one = []; behind = (1 ∷ 2 ∷ 3 ∷ []) ∷ (4 ∷ 5 ∷ []) ∷ [] }

-- The Reads get both messages, one after the other, and then fail.
reads_all :
    reads several (2 ∷ 2 ∷ 5 ∷ 5 ∷ 5 ∷ []) unread two_messages
    ≡ some (unread, 1 ∷ 2 ∷ 3 ∷ 4 ∷ 5 ∷ [], record { open_one = []; behind = [] })
unfolding reads read read_loop
reads_all = refl

reads_in_order_example :
    (rwc' : ReadWriteCloser One One) × (got : List ℕ) × (w' : Messages) × (reads several
        (2 ∷ 2 ∷ 5 ∷ 5 ∷ [])
        unread
        two_messages
      ≡ some (rwc', got, w'))
    × (1 ∷ 2 ∷ 3 ∷ 4 ∷ 5 ∷ []
        ≡ got ++ ahead several (λ r w. w.open_one) (λ w. joined w.behind) rwc' w')
reads_in_order_example =
    reads_in_order several (λ r w. w.open_one) (λ w. joined w.behind) several-IsSource
      (2 ∷ 2 ∷ 5 ∷ 5 ∷ []) unread two_messages refl

-- A writer that takes one byte in each call.
abbrev trickle : WebSocket (List ℕ) One One
trickle = record loopback { write = λ v p w. (1, none, w ++ take 1 p) }

trickle-IsMoving : IsMoving trickle
trickle-IsMoving = record {
  gives = λ r k w h e. take-moves k w h e;
  takes = λ v p w h e. omega arith;
}

read_write-returns_example :
    (returns (read trickle 4 at_hand false 3 (1 ∷ [])) ≡ true)
    × (returns (write trickle 4 at_hand false (1 ∷ 2 ∷ 3 ∷ []) (1 ∷ [])) ≡ true)
read_write-returns_example =
    read_write-returns trickle trickle-IsMoving at_hand false 3 (1 ∷ 2 ∷ 3 ∷ []) (1 ∷ [])
