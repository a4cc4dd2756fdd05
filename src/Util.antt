-- ===== src/Util.antt =====
-- atpdxy/util.h and atpdxy/util.cpp. backtrace and backtrace_symbols of the C library are a
-- parameter.
pub mod Lines
pub mod Frames
use atpdxy.Common.{
  ℕ, zero, suc, ◌-◌, ◌^◌, ◌%◌, ◌≤◌, ◌≡◌, Option, none, some, List, [], ◌∷◌, ◌++◌, length, get_elem?,
}
use atpdxy.Common.Bytes.{Bytes, codes}
use atpdxy.Fiber.{Machine, get_fiber_id}

-- `GetFiberId`, which returns the 64-bit id of the running fiber as a uint32_t.
unfoldable pub get_fiber_id32 : Machine → ℕ
get_fiber_id32 m = get_fiber_id m % 2 ^ 32

-- An int; `negsuc n` is -(n + 1).
pub data ℤ : Type 0 where
  pos negsuc : ℕ → ℤ

-- The int as a size_t.
abbrev pub as_size : ℤ → ℕ
as_size (pos n) = n
as_size (negsuc n) = 2 ^ 64 - suc n

-- `backtrace` gives the addresses of the calls, as many at most as there is room for, and
-- `backtrace_symbols` a text for each of them, or a null pointer.
pub record Traces : Type 0 where
  pub backtrace : ℕ → List ℕ
  pub backtrace_symbols : List ℕ → Option (List Bytes)
  pub in_room : (size : ℕ) → length (backtrace size) ≤ size
  pub one_each :
      (calls : List ℕ) (texts : List Bytes)
      → backtrace_symbols calls ≡ some texts
      → length texts ≡ length calls

-- The vector that is filled, how many blocks from malloc were not given back, and the texts that
-- were written to the logger at level ERROR.
pub record Work : Type 0 where
  pub bt : List Bytes
  pub blocks : ℕ
  pub errors : List Bytes

push : Option Bytes → List Bytes → List Bytes
push none bt = bt
push (some text) bt = bt ++ text ∷ []

-- The loop on the texts, from `i` on, in as many rounds as are left.
push_from : ℕ → ℕ → List Bytes → List Bytes → List Bytes
unfolding push
push_from zero i strings bt = bt
push_from (suc n) i strings bt = push_from n (suc i) strings (push (get_elem? strings i) bt)

-- The loop of BacktraceToString.
print_all : Bytes → List Bytes → Bytes
print_all prefix [] = []
print_all prefix (text ∷ bt) = prefix ++ (text ++ (b'\n' ∷ print_all prefix bt))

module _ (traces : Traces) where
  open traces use {backtrace, backtrace_symbols}

  -- Behind the call of backtrace_symbols; a null pointer ends the function.
  finish : Option (List Bytes) → ℕ → ℤ → Work → Work
  unfolding push_from
  finish none s skip w = record w { errors = w.errors ++ codes "backtrace_symnols error" ∷ [] }
  finish (some strings) s skip w = record w {
    bt = push_from (s - as_size skip) (as_size skip) strings w.bt;
    blocks = suc w.blocks - 2;
  }

  -- `BackTrace`, for a size that is not negative; malloc is taken to succeed.
  pub back_trace : ℕ → ℤ → Work → Work
  unfolding finish
  back_trace size skip w =
      let array = record w { blocks = suc w.blocks } in
      let calls = backtrace size in finish (backtrace_symbols calls) (length calls) skip array

  -- `BacktraceToString`, with the blocks that were not given back before.
  pub backtrace_to_string : ℕ → ℤ → Bytes → Work → Bytes × Work
  unfolding print_all
  backtrace_to_string size skip prefix w =
      let done = back_trace size skip (record w { bt = [] }) in
      (print_all prefix done.bt, record done { bt = w.bt })
