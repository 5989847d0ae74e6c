-- ===== src/Trap/S7comm/Total.antt =====
-- Every payload is decoded without a read out of range.
use ran.Base.{
  ℕ, ◌+◌, ◌-◌, ◌*◌, ◌/◌, ◌%◌, ◌≤◌, not, ◌&&◌, ◌||◌, Option, some, Bytes, length, get_elem?-lt,
  slice_total, uint16_total, ltb, leb, ◌==◌, ◌>>=◌, ◌≡◌, refl, arith, inl, inr, Bool-cases,
}
use ran.Trap.S7comm.{
  S7Request, unknown, read_szl, read_userdata, starts_userdata, read_params, read_pdu, starts_pdu,
  read_data, read_cotp, parse_s7,
}

-- a request that has the two bytes of a reference
abbrev pub IsDecoded : Option S7Request → Type 0
IsDecoded o = (req : S7Request) × (o ≡ some req) × (length req.src_ref ≡ 2)

decoded : (req : S7Request) → length req.src_ref ≡ 2 → IsDecoded (some req)
decoded req h = (req, refl, h)

-- one step that gives something, and the rest
step {ℓ} :
    {A : Type ℓ} (m : Option A) (f : A → Option S7Request) (a : A)
    → m ≡ some a
    → IsDecoded (f a)
    → IsDecoded (m >>= f)
step m f a e h = rw e h

read_szl-IsDecoded :
    (d : Bytes) (req : S7Request) → length req.src_ref ≡ 2 → IsDecoded (read_szl d req)
unfolding read_szl
read_szl-IsDecoded d req h = elim (Bool-cases (ltb (length d) 8)) [
  | inl short ↦ rw short (decoded req h)
  | inr long ↦
      let (first, e) = get_elem?-lt d 0 (ground (arith, long)) in
      let (word, f, size) = slice_total d 4 6 (omega arith) (ground (arith, long)) in
      let (id, g) = uint16_total word (omega (arith, size)) in
      rw (long, e, f, g)
        (elim (Bool-cases (first == 255)) [
          | inl found ↦ rw found (decoded _ h)
          | inr other ↦ rw other (decoded req h)
        ])
]

read_userdata-IsDecoded :
    (param d : Bytes) (req : S7Request)
    → 8 ≤ length param
    → length req.src_ref ≡ 2
    → IsDecoded (read_userdata param d req)
unfolding read_userdata
read_userdata-IsDecoded param d req long h =
    let (group, e) = get_elem?-lt param 5 (omega (arith, long)) in
    let (sub, f) = get_elem?-lt param 6 (omega (arith, long)) in
    let (seq, g) = get_elem?-lt param 7 (omega (arith, long)) in
    rw (e, f, g)
      (elim (Bool-cases (group % 16 == 4 && sub == 1)) [
        | inl szl ↦ rw szl (read_szl-IsDecoded d _ h)
        | inr other ↦
            rw other
              (elim (Bool-cases (group % 16 == 3 || (group % 16 == 7 && (sub == 1 || sub == 3)))) [
                | inl known ↦ rw known (decoded _ h)
                | inr rest ↦ rw rest (decoded _ h)
              ])
      ])

read_params-IsDecoded :
    (rosctr : ℕ) (param d : Bytes) (req : S7Request)
    → 1 ≤ length param
    → length req.src_ref ≡ 2
    → IsDecoded (read_params rosctr param d req)
unfolding read_params
read_params-IsDecoded rosctr param d req one h = elim (Bool-cases (rosctr == 1)) [
  | inl job ↦ let (f, e) = get_elem?-lt param 0 (omega (arith, one)) in rw (job, e) (decoded _ h)
  | inr other ↦
      rw other (elim (Bool-cases (rosctr == 7 && leb 8 (length param) && starts_userdata param)) [
        | inl user ↦ rw user (
            read_userdata-IsDecoded param d (record req { kind = unknown }) (ground (arith, user))
              h)
        | inr rest ↦ rw rest (decoded _ h)
      ])
]

read_pdu-IsDecoded :
    (s : Bytes) (req : S7Request)
    → 10 ≤ length s
    → length req.src_ref ≡ 2
    → IsDecoded (read_pdu s req)
unfolding read_pdu
read_pdu-IsDecoded s req long h =
    let (rosctr, e₁) = get_elem?-lt s 1 (omega (arith, long)) in
    let (w₁, e₂, size₁) = slice_total s 4 6 (omega arith) (omega (arith, long)) in
    let (pdu_ref, e₃) = uint16_total w₁ (omega (arith, size₁)) in
    let (w₂, e₄, size₂) = slice_total s 6 8 (omega arith) (omega (arith, long)) in
    let (plen, e₅) = uint16_total w₂ (omega (arith, size₂)) in
    rw (e₁, e₂, e₃, e₄, e₅)
      (elim (Bool-cases (ltb (length s - 10) plen || plen == 0)) [
        | inl bad ↦ rw bad (decoded _ h)
        | inr good ↦
            let (param, e₆, size) =
              slice_total s 10 (10 + plen) (omega arith) (ground (arith, good, long)) in
            let (d, e₇, _) =
              slice_total s (10 + plen) (length s) (ground (arith, good, long)) (omega arith) in
            rw (good, e₆, e₇)
              (read_params-IsDecoded rosctr param d (record req { pdu_ref = pdu_ref })
                (ground (arith, good, size)) h)
      ])

read_data-IsDecoded :
    (p : Bytes) (li : ℕ) (req : S7Request) → length req.src_ref ≡ 2 → IsDecoded (read_data p li req)
unfolding read_data
read_data-IsDecoded p li req h = elim (Bool-cases (ltb (length p) (1 + li))) [
  | inl short ↦ rw short (decoded _ h)
  | inr long ↦
      let (s, e, _) = slice_total p (1 + li) (length p) (ground (arith, long)) (omega arith) in
      rw (long, e)
        (elim (Bool-cases (ltb (length s) 10 || not (starts_pdu s))) [
          | inl bad ↦ rw bad (decoded _ h)
          | inr good ↦ rw good (read_pdu-IsDecoded s req (ground (arith, good)) h)
        ])
]

-- parseS7 decodes every payload, without a read out of range.
pub parse_s7-IsDecoded : (p : Bytes) → IsDecoded (parse_s7 p)
unfolding parse_s7 read_cotp
parse_s7-IsDecoded p = elim (Bool-cases (ltb (length p) 2)) [
  | inl short ↦ rw short (decoded _ refl)
  | inr long ↦
      let (li, e) = get_elem?-lt p 0 (ground (arith, long)) in
      let (t, f) = get_elem?-lt p 1 (ground (arith, long)) in
      rw (long, e, f)
        (elim (Bool-cases (t / 16 * 16 == 224)) [
          | inl cr ↦ rw cr (elim (Bool-cases (ltb (length p) 6)) [
            | inl bare ↦ rw bare (decoded _ refl)
            | inr ref ↦
                let (r, g, size) = slice_total p 4 6 (omega arith) (ground (arith, ref)) in
                rw (ref, g) (decoded _ size)
          ])
          | inr other ↦ rw other (elim (Bool-cases (t / 16 * 16 == 240)) [
            | inl dt ↦ rw dt (read_data-IsDecoded p li _ refl)
            | inr rest ↦ rw rest (decoded _ refl)
          ])
        ])
]
