-- ===== src/Sample/FrameLength.antt =====
-- `GetFrameLength` of MfcSample/SiDaqMfcSampleDlg.cpp, the length function that the dialog gives
-- to the framer: a big-endian header with the length of the body. `int` and `UINT` are words.
use si_daq_api.Base.{
  ℕ, zero, suc, ◌+◌, ◌-◌, ◌*◌, ◌/◌, ◌%◌, ◌<◌, ◌≤◌, ◌≡◌, refl, ap, ◌∙◌, ◌^◌, List, [], ◌∷◌, ◌++◌,
  arith, Outcome, done, fault, out_of_fuel, ◌>>=◌, ◌==◌, ltb, leb, if◌then◌else◌, length, add32,
  add32_exact, lt→leb, le→ltb, ne→==,
}
use si_daq_api.Framer.{LengthFunc}

-- -1
abbrev minus_one : ℕ
minus_one = 2 ^ 32 - 1

-- The loop that sums up the header, with `n` bytes still to be read. A shift by 32 bits or more,
-- and a read past the end of the memory, are faults.
header_loop : List ℕ → ℕ → ℕ → Outcome ℕ
header_loop bytes zero header = done header
header_loop [] (suc n) header = fault
header_loop (byte ∷ bytes) (suc n) header =
    let rest = header_loop bytes n (add32 header ((byte * 2 ^ (n * 8)) % 2 ^ 32)) in
    if leb 32 (n * 8) then fault else rest

-- `GetFrameLength(recv_data_ptr, data_len, header_len)`
pub get_frame_length : List ℕ → ℕ → ℕ → Outcome ℕ
get_frame_length bytes data_len header_len =
    if ltb data_len header_len
    then done minus_one
    else if header_len == 0
    then done data_len
    else (header_loop bytes header_len 0 >>= λ header.
        done (if header == 0 then minus_one else header))

-- A fault has no value; the theorems exclude it.
abbrev value_of : Outcome ℕ → ℕ
value_of (done n) = n
value_of fault = minus_one
value_of out_of_fuel = minus_one

-- The function as the framer calls it.
pub length_of : LengthFunc
length_of bytes data_len header_len = value_of (get_frame_length bytes data_len header_len)

-- The header that stands for `n`: its last `size` base-256 digits, the highest first.
unfoldable pub big_endian : ℕ → ℕ → List ℕ
big_endian zero n = []
big_endian (suc size) n = (n / 2 ^ (size * 8)) % 256 ∷ big_endian size n

pub length-big_endian : (size n : ℕ) → length (big_endian size n) ≡ size
unfolding big_endian
length-big_endian zero n = refl
length-big_endian (suc size) n = ap suc (length-big_endian size n)

digit :
    (size n : ℕ)
    → size < 4
    → ((n / 2 ^ (size * 8)) % 256 * 2 ^ (size * 8)) + n % 2 ^ (size * 8) ≡ n % 2 ^ (suc size * 8)
digit zero n h = omega arith
digit (suc zero) n h = omega arith
digit (suc (suc zero)) n h = omega arith
digit (suc (suc (suc zero))) n h = omega arith
digit (suc (suc (suc (suc k)))) n h = absurd (omega arith)

header_loop-big_endian :
    (size n header : ℕ) (tail : List ℕ)
    → size ≤ 4
    → header + n % 2 ^ (size * 8) < 2 ^ 32
    → header_loop (big_endian size n ++ tail) size header ≡ done (header + n % 2 ^ (size * 8))
unfolding header_loop big_endian
header_loop-big_endian zero n header tail le small = ap done (omega arith)
header_loop-big_endian (suc size) n header tail le small =
    let rank = 2 ^ (size * 8) in
    let byte = (n / rank) % 256 in
    let sum : byte * rank + n % rank ≡ n % 2 ^ (suc size * 8) = digit size n (omega arith) in
    let shifted : (byte * rank) % 2 ^ 32 ≡ byte * rank = omega (arith, sum) in
    let added : add32 header (byte * rank) ≡ header + byte * rank =
      add32_exact header (byte * rank) (omega (arith, sum)) in
    rw (lt→leb 32 (size * 8) (omega arith), shifted, added)
      (header_loop-big_endian size n (header + byte * rank) tail (omega arith) (omega (arith, sum))
        ∙ ap done (omega (arith, sum)))

header_value :
    (size n : ℕ) → size ≤ 4 → n < 2 ^ (size * 8) → (n % 2 ^ (size * 8) ≡ n) × (n < 2 ^ 32)
header_value zero n h k = (omega arith, omega arith)
header_value (suc zero) n h k = (omega arith, omega arith)
header_value (suc (suc zero)) n h k = (omega arith, omega arith)
header_value (suc (suc (suc zero))) n h k = (omega arith, omega arith)
header_value (suc (suc (suc (suc zero)))) n h k = (omega arith, omega arith)
header_value (suc (suc (suc (suc (suc size))))) n h k = absurd (omega arith)

-- Of a header of at most four bytes, all of which are there, `GetFrameLength` returns the number
-- that it stands for; or -1, if that is 0.
pub get_frame_length-big_endian :
    (size n : ℕ) (tail : List ℕ) (data_len : ℕ)
    → 0 < size
    → size ≤ 4
    → n < 2 ^ (size * 8)
    → size ≤ data_len
    → get_frame_length (big_endian size n ++ tail) data_len size
      ≡ done (if n == 0 then minus_one else n)
unfolding get_frame_length
get_frame_length-big_endian size n tail data_len pos le small enough =
    let (value, bound) = header_value size n le small in
    let sum : header_loop (big_endian size n ++ tail) size 0 ≡ done n =
      header_loop-big_endian size n 0 tail le (omega (arith, value, bound))
      ∙ ap done (omega (arith, value)) in
    rw (le→ltb data_len size enough, ne→== size 0 (λ e. omega arith), sum) refl

pub length_of-big_endian :
    (size n : ℕ) (tail : List ℕ) (data_len : ℕ)
    → 0 < size
    → size ≤ 4
    → n < 2 ^ (size * 8)
    → size ≤ data_len
    → 0 < n
    → length_of (big_endian size n ++ tail) data_len size ≡ n
unfolding length_of
length_of-big_endian size n tail data_len pos le small enough some_body =
    ap value_of (get_frame_length-big_endian size n tail data_len pos le small enough)
    ∙ ap (λ t. if t then minus_one else n) (ne→== n 0 (λ e. omega arith))
