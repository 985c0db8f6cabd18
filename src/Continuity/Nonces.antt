-- ===== src/Continuity/Nonces.antt =====
-- authority_continuity.py: the NonceStore protocol with its promise, and the two stores that keep it.
use minority_prophet_gate.Base.{
  ℕ, ◌≡◌, Bool, true, false, ◌||◌, ◌==◌, if◌then◌else◌, arith, Dict, insert, has_key, lookup-insert,
  Outcome, ok, raised,
}

pub data StoreError : Type 0 where
  value_required store_locked : StoreError

-- `consume` is atomic: it answers true only to the first consumption of a nonce. `used` is what
-- the store remembers, and the laws are the protocol's docstring.
pub record NonceStore (S : Type 0) : Type 0 where
  pub consume : ℕ → ℕ → S → Outcome StoreError Bool × S
  pub used : ℕ → S → Bool
  pub consume_first :
      (n b : ℕ) (s : S)
      → (consume n b s).0 ≡ ok true
      → (used n s ≡ false) × (used n (consume n b s).1 ≡ true)
  pub consume_keeps : (n b m : ℕ) (s : S) → used m s ≡ true → used m (consume n b s).1 ≡ true

-- InMemoryNonceStore: `_seen`
unfoldable pub memory_consume : ℕ → ℕ → Dict ℕ → Outcome StoreError Bool × Dict ℕ
memory_consume nonce digest seen =
    if has_key nonce seen then (ok false, seen) else (ok true, insert nonce digest seen)

-- SqliteNonceStore: the rows by their primary key. `locked` says whether the database refuses the
-- transaction; then nothing is written.
unfoldable pub sqlite_consume : (Dict ℕ → Bool) → ℕ → ℕ → Dict ℕ → Outcome StoreError Bool × Dict ℕ
sqlite_consume locked nonce digest rows =
    if nonce == 0 || digest == 0
    then (raised value_required, rows)
    else if locked rows
    then (raised store_locked, rows)
    else if has_key nonce rows
    then (ok false, rows)
    else (ok true, insert nonce digest rows)

pub memory-first :
    (n b : ℕ) (s : Dict ℕ)
    → (memory_consume n b s).0 ≡ ok true
    → (has_key n s ≡ false) × (has_key n (memory_consume n b s).1 ≡ true)
unfolding memory_consume
memory-first n b s h = ground (arith, lookup-insert n n b s)

pub memory-keeps :
    (n b m : ℕ) (s : Dict ℕ) → has_key m s ≡ true → has_key m (memory_consume n b s).1 ≡ true
unfolding memory_consume
memory-keeps n b m s h = ground (arith, lookup-insert n m b s)

pub sqlite-first :
    (locked : Dict ℕ → Bool) (n b : ℕ) (s : Dict ℕ)
    → (sqlite_consume locked n b s).0 ≡ ok true
    → (has_key n s ≡ false) × (has_key n (sqlite_consume locked n b s).1 ≡ true)
unfolding sqlite_consume
sqlite-first locked n b s h = ground (arith, lookup-insert n n b s)

pub sqlite-keeps :
    (locked : Dict ℕ → Bool) (n b m : ℕ) (s : Dict ℕ)
    → has_key m s ≡ true
    → has_key m (sqlite_consume locked n b s).1 ≡ true
unfolding sqlite_consume
sqlite-keeps locked n b m s h = ground (arith, lookup-insert n m b s)

abbrev pub memory_store : NonceStore (Dict ℕ)
memory_store = record {
  consume = memory_consume;
  used = λ n s. has_key n s;
  consume_first = memory-first;
  consume_keeps = memory-keeps;
}

abbrev pub sqlite_store : (Dict ℕ → Bool) → NonceStore (Dict ℕ)
sqlite_store locked = record {
  consume = sqlite_consume locked;
  used = λ n s. has_key n s;
  consume_first = sqlite-first locked;
  consume_keeps = sqlite-keeps locked;
}
