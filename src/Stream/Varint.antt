-- ===== src/Stream/Varint.antt =====
-- `ReadUvarint` reads back what `PutUvarint` wrote, and what the readers leave behind them.
use git_spdx.Common.{
  ℕ, zero, suc, ◌+◌, ◌*◌, ◌/◌, ◌%◌, ◌^◌, ◌≤◌, ◌<◌, ◌≡◌, refl, ap, [], ◌∷◌, ◌++◌, Bytes, length,
  length-drop, arith, Error, ok, >>=-eq-ok, take-append_length, drop-append_length, length-append,
}
use git_spdx.Stream.{Stream, uvarint_loop, read_uvarint, uvarint, put_uvarint, read_full}
use native.Mathlib.Nat.{div-add-mod, pow-suc}

split_weight : (v w : ℕ) → v * w ≡ v % 128 * w + v / 128 * (w * 128)
split_weight v w = omega (arith, ap (λ (t : ℕ). t * w) (div-add-mod v 128))

uvarint_loop-uvarint :
    (k i w x v : ℕ) (rest : Bytes) (stop : Error)
    → i + k ≡ 9
    → w * 128 ^ k ≡ 2 ^ 63
    → v < 128 ^ suc k
    → v * w < 2 ^ 64
    → uvarint_loop (suc k) i w x (uvarint k v ++ rest) stop ≡ ok (x + v * w, rest)
unfolding uvarint_loop uvarint
uvarint_loop-uvarint zero i w x v rest stop hi hw hv fits =
    let full : w ≡ 2 ^ 63 = omega arith in
    let small : v < 2 = omega (arith, ap (λ (t : ℕ). v * t) full) in ground arith
uvarint_loop-uvarint (suc k) i w x v rest stop hi hw hv fits =
    let next = uvarint_loop-uvarint k (i + 1) (w * 128) (x + v % 128 * w) (v / 128) rest stop in
    let weight : w * 128 * 128 ^ k ≡ 2 ^ 63 =
      omega (arith, ap (λ (t : ℕ). w * t) (pow-suc 128 k)) in
    let below : v / 128 < 128 ^ suc k = omega (arith, pow-suc 128 (suc k)) in
    let split = split_weight v w in ground (arith, next)

-- Reading what was written for a uint64 gives it back, and leaves what follows.
pub read_uvarint-put_uvarint :
    (v : ℕ) (rest : Bytes) (stop : Error)
    → v < 2 ^ 64
    → read_uvarint (record { bytes = put_uvarint v ++ rest; stop = stop })
      ≡ ok (v, record { bytes = rest; stop = stop })
unfolding read_uvarint put_uvarint
read_uvarint-put_uvarint v rest stop h =
    rw (uvarint_loop-uvarint 9 0 1 0 v rest stop (omega arith) refl (omega arith) (omega arith))
      (ground arith)

pub read_full-append :
    (s rest : Bytes) (stop : Error)
    → read_full (length s) (record { bytes = s ++ rest; stop = stop })
      ≡ ok (s, record { bytes = rest; stop = stop })
unfolding read_full
read_full-append s rest stop =
    ground (arith, length-append s rest, take-append_length s rest, drop-append_length s rest)

-- A varint takes a byte at least.
uvarint_loop_shorter :
    (left i w x v : ℕ) (bs rest : Bytes) (stop : Error)
    → uvarint_loop left i w x bs stop ≡ ok (v, rest)
    → length rest < length bs
unfolding uvarint_loop
uvarint_loop_shorter zero i w x v bs rest stop e = cc
uvarint_loop_shorter (suc left) i w x v [] rest stop e = cc
uvarint_loop_shorter (suc left) i w x v (b ∷ bs) rest stop e =
    ground (arith, uvarint_loop_shorter left (i + 1) (w * 128) (x + b % 128 * w) v bs rest stop)

pub read_uvarint_shorter :
    (r : Stream) (v : ℕ) (r' : Stream)
    → read_uvarint r ≡ ok (v, r')
    → (length r'.bytes < length r.bytes) × (r'.stop ≡ r.stop)
unfolding read_uvarint
read_uvarint_shorter r v r' e =
    let ((x, rest), h, last) =
      >>=-eq-ok {W = ℕ × Stream} (uvarint_loop 10 0 1 0 r.bytes r.stop)
        (λ p. ok (p.0, record { bytes = p.1; stop = r.stop })) e in
    ground (arith, uvarint_loop_shorter 10 0 1 0 x r.bytes rest r.stop h)

pub read_full_shorter :
    (n : ℕ) (r : Stream) (s : Bytes) (r' : Stream)
    → read_full n r ≡ ok (s, r')
    → (length r'.bytes ≤ length r.bytes) × (r'.stop ≡ r.stop)
unfolding read_full
read_full_shorter n r s r' e = ground (arith, length-drop n r.bytes)

uvarint_pos : (k v : ℕ) → 0 < length (uvarint k v)
unfolding uvarint
uvarint_pos zero v = omega arith
uvarint_pos (suc k) v = ground arith

pub put_uvarint_pos : (v : ℕ) → 0 < length (put_uvarint v)
unfolding put_uvarint
put_uvarint_pos v = uvarint_pos 9 v
