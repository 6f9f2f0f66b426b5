-- ===== src/Wsrpc/Returns.antt =====
-- Read and Write return: enough fuel for their loops, on every branch.
use arigo.Base.{
  ℕ, zero, suc, ◌+◌, ◌-◌, ◌<◌, ◌≡◌, refl, Bool, true, false, Option, none, some, List, [], ◌∷◌,
  ◌++◌, arith, inl, inr, Bool-cases, Option-cases, ltb, length, length-append, drop,
}
use arigo.Json.{GoError}
use arigo.Wsrpc.{
  WebSocket, ReadWriteCloser, read, read_loop, read_with, after_read, write, write_loop, write_with,
  after_write,
}

abbrev pub returns {ℓ} : {A : Type ℓ} → Option A → Bool
returns none = false
returns (some a) = true

length-drop : (n : ℕ) (p : List ℕ) → length (drop n p) ≡ length p - n
length-drop zero p = omega arith
length-drop (suc n) [] = omega arith
length-drop (suc n) (x ∷ p) = omega (arith, length-drop n p)

module _ {W R V : Type 0} (s : WebSocket W R V) where
  -- A call with bytes to move moves one, or fails.
  pub record IsMoving : Type 0 where
    pub gives :
        (r : R) (k : ℕ) (w : W) → 0 < k → (s.read r k w).1 ≡ none → 0 < length (s.read r k w).0
    pub takes :
        (v : V) (p : List ℕ) (w : W)
        → 0 < length p
        → (s.write v p w).1 ≡ none
        → 0 < (s.write v p w).0

  after_read-returns :
      (rwc : ReadWriteCloser R V) (o : Option (List ℕ × Option GoError × W))
      → returns o ≡ true
      → returns (after_read s rwc o) ≡ true
  unfolding after_read
  after_read-returns rwc o h = ground (arith, h)

  after_write-returns :
      (rwc : ReadWriteCloser R V) (v : V) (p : List ℕ) (o : Option (ℕ × W))
      → returns o ≡ true
      → returns (after_write s rwc v p o) ≡ true
  unfolding after_write
  after_write-returns rwc v p o h = ground (arith, h)

  module _ (h : IsMoving) where
    read_loop-returns :
        (fuel : ℕ) (r : R) (len : ℕ) (got : List ℕ) (w : W)
        → len - length got < fuel
        → returns (read_loop s fuel r len got w) ≡ true
    unfolding read_loop
    read_loop-returns zero r len got w lt = elim lt [ ]
    read_loop-returns (suc fuel) r len got w lt =
        let k : ℕ = len - length got in
        let sum = length-append got (s.read r k w).0 in
        let again = read_loop-returns fuel r len (got ++ (s.read r k w).0) (s.read r k w).2 in
        elim (Bool-cases (ltb (length got) len)) [
          | inr full ↦ rw full refl
          | inl more ↦ elim (Option-cases (s.read r k w).1) [
            | inr (e, failing) ↦ rw (more, failing) refl
            | inl quiet ↦
                let moved = h.gives r k w (ground arith) quiet in
                let behind : length got < len = ground arith in
                rw (more, quiet) (again (omega (arith, sum)))
          ]
        ]

    write_loop-returns :
        (fuel : ℕ) (v : V) (p : List ℕ) (n : ℕ) (w : W)
        → length p - n < fuel
        → returns (write_loop s fuel v p n w) ≡ true
    unfolding write_loop
    write_loop-returns zero v p n w lt = elim lt [ ]
    write_loop-returns (suc fuel) v p n w lt =
        let rest = length-drop n p in
        let again =
          write_loop-returns fuel v p (n + (s.write v (drop n p) w).0) (s.write v (drop n p) w).2 in
        elim (Bool-cases (ltb n (length p))) [
          | inr full ↦ rw full refl
          | inl more ↦ elim (Option-cases (s.write v (drop n p) w).1) [
            | inr (e, failing) ↦ rw (more, failing) refl
            | inl quiet ↦
                let behind : n < length p = ground arith in
                let moved = h.takes v (drop n p) w (omega (arith, rest)) quiet in
                rw (more, quiet) (again (omega arith))
          ]
        ]

    read_with-returns :
        (rwc : ReadWriteCloser R V) (r : R) (len : ℕ) (w : W)
        → returns (read_with s (suc len) rwc r len w) ≡ true
    unfolding read_with
    read_with-returns rwc r len w =
        after_read-returns rwc _ (read_loop-returns (suc len) r len [] w (omega arith))

    write_with-returns :
        (rwc : ReadWriteCloser R V) (v : V) (p : List ℕ) (w : W)
        → returns (write_with s (suc (length p)) rwc v p w) ≡ true
    unfolding write_with
    write_with-returns rwc v p w =
        after_write-returns rwc v p _ (write_loop-returns (suc (length p)) v p 0 w (omega arith))

    -- Where every call of a reader or a writer that has bytes to move and gives no error moves at
    -- least one, Read and Write return on every connection, open or closed, with or without an open
    -- message, also where Close runs meanwhile: their loops run at most once more than the buffer
    -- has bytes.
    pub read_write-returns :
        (rwc : ReadWriteCloser R V) (meanwhile : Bool) (len : ℕ) (p : List ℕ) (w : W)
        → (returns (read s (suc len) rwc meanwhile len w) ≡ true)
          × (returns (write s (suc (length p)) rwc meanwhile p w) ≡ true)
    unfolding read write
    read_write-returns rwc meanwhile len p w =
        (grind (arith, read_with-returns), grind (arith, write_with-returns))
