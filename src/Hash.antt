-- ===== src/Hash.antt =====
-- CRUSH_Research/crush_hash.c: Robert Jenkins' mix of three 32-bit words, and the hashes of one to
-- five words that CRUSH builds from it. A word is its `__u32` value.
pub mod Mix
mod Tests
use my_ceph.Common.{ℕ, ◌==◌, bit_xor, if◌then◌else◌, sub32, shr, shl32}
use Prim.Native.String.{String}

-- The three variables that a mix updates.
pub record Words : Type 0 where
  pub a : ℕ
  pub b : ℕ
  pub c : ℕ

-- One line of the macro: `x = x-y; x = x-z; x = x^s`.
pub mix_line : ℕ → ℕ → ℕ → ℕ → ℕ
mix_line x y z s = bit_xor (sub32 (sub32 x y) z) s

-- The nine lines of the macro, each by the word that it updates and its shift.
pub line_a : ℕ → Words → Words
line_a k w = record w { a = mix_line w.a w.b w.c (shr w.c k) }

pub line_b : ℕ → Words → Words
line_b k w = record w { b = mix_line w.b w.c w.a (shl32 w.a k) }

pub line_c : ℕ → Words → Words
line_c k w = record w { c = mix_line w.c w.a w.b (shr w.b k) }

-- One third of the macro: a line for each word.
pub mix_round : ℕ → ℕ → ℕ → Words → Words
mix_round i j k w = line_c k (line_b j (line_a i w))

-- `crush_hashmix(a, b, c)`
pub crush_hashmix : Words → Words
crush_hashmix w = mix_round 3 10 15 (mix_round 12 16 5 (mix_round 13 8 13 w))

abbrev pub crush_hash_seed : ℕ
crush_hash_seed = 1315423911

-- The local `x` and `y` of every hash.
abbrev pub local_x : ℕ
local_x = 231232

abbrev pub local_y : ℕ
local_y = 1232

abbrev pub mix : ℕ → ℕ → ℕ → Words
mix a b c = crush_hashmix (record { a = a; b = b; c = c })

pub crush_hash32_rjenkins1 : ℕ → ℕ
unfolding crush_hashmix mix_round line_a line_b line_c mix_line
crush_hash32_rjenkins1 a =
    let m1 = mix a local_x (bit_xor crush_hash_seed a) in let m2 = mix local_y a m1.c in m2.c

unfoldable pub crush_hash32_rjenkins1_2 : ℕ → ℕ → ℕ
unfolding crush_hashmix mix_round line_a line_b line_c mix_line
crush_hash32_rjenkins1_2 a b =
    let m1 = mix a b (bit_xor (bit_xor crush_hash_seed a) b) in
    let m2 = mix local_x m1.a m1.c in let m3 = mix m1.b local_y m2.c in m3.c

unfoldable pub crush_hash32_rjenkins1_3 : ℕ → ℕ → ℕ → ℕ
unfolding crush_hashmix mix_round line_a line_b line_c mix_line
crush_hash32_rjenkins1_3 a b c =
    let m1 = mix a b (bit_xor (bit_xor (bit_xor crush_hash_seed a) b) c) in
    let m2 = mix c local_x m1.c in
    let m3 = mix local_y m1.a m2.c in
    let m4 = mix m1.b m2.b m3.c in let m5 = mix m3.a m2.a m4.c in m5.c

pub crush_hash32_rjenkins1_4 : ℕ → ℕ → ℕ → ℕ → ℕ
unfolding crush_hashmix mix_round line_a line_b line_c mix_line
crush_hash32_rjenkins1_4 a b c d =
    let m1 = mix a b (bit_xor (bit_xor (bit_xor (bit_xor crush_hash_seed a) b) c) d) in
    let m2 = mix c d m1.c in
    let m3 = mix m1.a local_x m2.c in
    let m4 = mix local_y m1.b m3.c in
    let m5 = mix m2.a m3.b m4.c in let m6 = mix m4.a m2.b m5.c in m6.c

pub crush_hash32_rjenkins1_5 : ℕ → ℕ → ℕ → ℕ → ℕ → ℕ
unfolding crush_hashmix mix_round line_a line_b line_c mix_line
crush_hash32_rjenkins1_5 a b c d e =
    let seed = bit_xor (bit_xor (bit_xor (bit_xor (bit_xor crush_hash_seed a) b) c) d) e in
    let m1 = mix a b seed in
    let m2 = mix c d m1.c in
    let m3 = mix e local_x m2.c in
    let m4 = mix local_y m1.a m3.c in
    let m5 = mix m1.b m3.b m4.c in
    let m6 = mix m4.a m2.a m5.c in
    let m7 = mix m2.b m5.b m6.c in let m8 = mix m6.a m3.a m7.c in m8.c

-- The hash that a `type` names; 0 for a type that is none.
abbrev pub crush_hash_rjenkins1 : ℕ
crush_hash_rjenkins1 = 0

pub crush_hash32 : ℕ → ℕ → ℕ
crush_hash32 t a = if t == crush_hash_rjenkins1 then crush_hash32_rjenkins1 a else 0

unfoldable pub crush_hash32_2 : ℕ → ℕ → ℕ → ℕ
crush_hash32_2 t a b = if t == crush_hash_rjenkins1 then crush_hash32_rjenkins1_2 a b else 0

unfoldable pub crush_hash32_3 : ℕ → ℕ → ℕ → ℕ → ℕ
crush_hash32_3 t a b c = if t == crush_hash_rjenkins1 then crush_hash32_rjenkins1_3 a b c else 0

pub crush_hash32_4 : ℕ → ℕ → ℕ → ℕ → ℕ → ℕ
crush_hash32_4 t a b c d = if t == crush_hash_rjenkins1 then crush_hash32_rjenkins1_4 a b c d else 0

pub crush_hash32_5 : ℕ → ℕ → ℕ → ℕ → ℕ → ℕ → ℕ
crush_hash32_5 t a b c d e =
    if t == crush_hash_rjenkins1 then crush_hash32_rjenkins1_5 a b c d e else 0

pub crush_hash_name : ℕ → String
crush_hash_name t = if t == crush_hash_rjenkins1 then "rjenkins1" else "unknown"
