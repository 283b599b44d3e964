-- ===== src/Net/Address/Dotted.antt =====
-- `ping` reads an address in dotted decimal.
use nedoos.Prelude.{
  ℕ, ◌+◌, ◌-◌, ◌*◌, ◌^◌, ◌≤◌, ◌<◌, ◌≡◌, refl, ap, ◌∙◌, bit_or, true, ◌&&◌, List, [], ◌∷◌, ◌++◌,
  Option, some, leb, arith, u32,
}
use nedoos.Prelude.Bits.{bit_or_disjoint, zero-bit_or}
use nedoos.Console.Decimal.{value, AllDigits}
use nedoos.Net.Address.{put_octet, lower, read_ip}

value_grows : (cs : List ℕ) (n : ℕ) → n ≤ value n cs
value_grows [] n = omega arith
value_grows (c ∷ cs) n = omega (arith, value_grows cs (n * 10 + (c - 48)))

read_digits :
    (cs rest : List ℕ) (ip octet : ℕ) (shift : Option ℕ)
    → AllDigits cs
    → value octet cs < 2 ^ 31
    → read_ip (cs ++ rest) ip octet shift ≡ read_ip rest ip (value octet cs) shift
unfolding read_ip
read_digits [] rest ip octet shift a h = refl
read_digits (c ∷ cs) rest ip octet shift a h =
    let digit : (leb 48 c && leb c 57) ≡ true = ground (arith, a.0, a.1) in
    let kept : u32 (octet * 10 + (c - 48)) ≡ octet * 10 + (c - 48) =
      omega (arith, value_grows cs (octet * 10 + (c - 48)), h) in
    rw digit (
      ap (λ o. read_ip (cs ++ rest) ip o shift) kept
      ∙ read_digits cs rest ip (octet * 10 + (c - 48)) shift a.2 h)

read_dot :
    (rest : List ℕ) (ip octet shift : ℕ)
    → read_ip (46 ∷ rest) ip octet (some shift)
      ≡ read_ip rest (bit_or ip (u32 (octet * 2 ^ shift))) 0 (lower (some shift))
unfolding read_ip put_octet
read_dot rest ip octet shift = refl

-- One part of the address and the dot after it.
read_part :
    (cs rest : List ℕ) (ip shift : ℕ)
    → AllDigits cs
    → value 0 cs < 256
    → read_ip (cs ++ (46 ∷ rest)) ip 0 (some shift)
      ≡ read_ip rest (bit_or ip (u32 (value 0 cs * 2 ^ shift))) 0 (lower (some shift))
read_part cs rest ip shift a h =
    read_digits cs (46 ∷ rest) ip 0 (some shift) a (omega (arith, h))
    ∙ read_dot rest ip (value 0 cs) shift

read_last :
    (cs : List ℕ) (ip : ℕ)
    → AllDigits cs
    → value 0 cs < 256
    → read_ip (cs ++ []) ip 0 (some 0) ≡ some (bit_or ip (value 0 cs))
unfolding read_ip put_octet
read_last cs ip a h =
    let whole : u32 (value 0 cs * 2 ^ 0) ≡ value 0 cs = omega (arith, h) in
    read_digits cs [] ip 0 (some 0) a (omega (arith, h)) ∙ ap (λ o. some (bit_or ip o)) whole

-- The three steps that put an octet below those that stand.
first_octet : (a : ℕ) → a < 256 → bit_or 0 (u32 (a * 2 ^ 24)) ≡ a * 2 ^ 24
first_octet a h = omega (arith, zero-bit_or (u32 (a * 2 ^ 24)), h)

second_octet :
    (a b : ℕ) → b < 256 → bit_or (a * 2 ^ 24) (u32 (b * 2 ^ 16)) ≡ a * 2 ^ 24 + b * 2 ^ 16
second_octet a b h =
    let small : u32 (b * 2 ^ 16) ≡ b * 2 ^ 16 = omega (arith, h) in
    rw small (bit_or_disjoint 24 a (b * 2 ^ 16) (omega (arith, h)))

third_octet :
    (a b c : ℕ)
    → c < 256
    → bit_or (a * 2 ^ 24 + b * 2 ^ 16) (u32 (c * 2 ^ 8)) ≡ a * 2 ^ 24 + b * 2 ^ 16 + c * 2 ^ 8
third_octet a b c h =
    let small : u32 (c * 2 ^ 8) ≡ c * 2 ^ 8 = omega (arith, h) in
    let whole : a * 2 ^ 24 + b * 2 ^ 16 ≡ (a * 256 + b) * 2 ^ 16 = omega arith in
    rw (small, whole) (bit_or_disjoint 16 (a * 256 + b) (c * 2 ^ 8) (omega (arith, h)))

fourth_octet :
    (a b c d : ℕ)
    → d < 256
    → bit_or (a * 2 ^ 24 + b * 2 ^ 16 + c * 2 ^ 8) d ≡ a * 2 ^ 24 + b * 2 ^ 16 + c * 2 ^ 8 + d
fourth_octet a b c d h =
    let whole : a * 2 ^ 24 + b * 2 ^ 16 + c * 2 ^ 8 ≡ (a * 65536 + b * 256 + c) * 2 ^ 8 =
      omega arith in
    rw whole (bit_or_disjoint 8 (a * 65536 + b * 256 + c) d h)

-- `ping` reads four decimal numbers below 256 with dots between them as the address whose bytes
-- they are, the first one on top.
pub read_ip_dotted :
    (xs bs cs ds : List ℕ)
    → AllDigits xs
    → AllDigits bs
    → AllDigits cs
    → AllDigits ds
    → value 0 xs < 256
    → value 0 bs < 256
    → value 0 cs < 256
    → value 0 ds < 256
    → read_ip (xs ++ (46 ∷ (bs ++ (46 ∷ (cs ++ (46 ∷ (ds ++ []))))))) 0 0 (some 24)
      ≡ some (value 0 xs * 2 ^ 24 + value 0 bs * 2 ^ 16 + value 0 cs * 2 ^ 8 + value 0 ds)
read_ip_dotted xs bs cs ds p q r s ha hb hc hd =
    let a : ℕ = value 0 xs in
    let b : ℕ = value 0 bs in
    let c : ℕ = value 0 cs in
    let d : ℕ = value 0 ds in
    let after_b : List ℕ = cs ++ (46 ∷ (ds ++ [])) in
    let after_a : List ℕ = bs ++ (46 ∷ after_b) in
    read_part xs after_a 0 24 p ha
    ∙ (ap (λ ip. read_ip after_a ip 0 (some 16)) (first_octet a ha)
        ∙ (read_part bs after_b (a * 2 ^ 24) 16 q hb
            ∙ (ap (λ ip. read_ip after_b ip 0 (some 8)) (second_octet a b hb)
                ∙ (read_part cs (ds ++ []) (a * 2 ^ 24 + b * 2 ^ 16) 8 r hc
                    ∙ (ap (λ ip. read_ip (ds ++ []) ip 0 (some 0)) (third_octet a b c hc)
                        ∙ (read_last ds (a * 2 ^ 24 + b * 2 ^ 16 + c * 2 ^ 8) s hd
                            ∙ ap some (fourth_octet a b c d hd)))))))
