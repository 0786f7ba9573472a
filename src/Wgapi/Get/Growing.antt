-- ===== src/Wgapi/Get/Growing.antt =====
-- The scanner of `IPCGet.Value`: its buffer is moved to the front, and replaced by a larger one.
use point_c.Base.{
  ℕ, ◌+◌, ◌/◌, ◌≤◌, ◌<◌, ◌≡◌, refl, ap, ◌∙◌, ◌⊎◌, ◌↔◌, ==_iff, inl, inr, true, false, ◌||◌, none,
  some, [], length, ltb, leb, ◌==◌, Bool-cases, arith,
}
use point_c.Wgapi.Ipc.{max_scan_token_size}
use point_c.Wgapi.Get.{LineScanner, shift, grow, grown_size, start_buf_size}

-- The bytes at hand are in the buffer, and nothing is behind the end of the source.
pub record Fits (s : LineScanner) : Type 0 where
  pub bounded : s.size ≤ max_scan_token_size
  pub within : s.start + length s.held ≤ s.size
  pub at_end : s.ended ≡ true → s.source ≡ []
  pub spare : s.ended ≡ true → length s.held < max_scan_token_size

-- The source will be empty behind the next read.
abbrev pub Small : LineScanner → Type 0
Small s = (s.source ≡ []) ⊎ ((s.size ≡ 0) × (length s.source ≤ start_buf_size))

-- What moving and replacing the buffer leave as it is.
pub record Moved (s t : LineScanner) : Type 0 where
  pub held : t.held ≡ s.held
  pub source : t.source ≡ s.source
  pub ended : t.ended ≡ s.ended

pub record Shifted (s t : LineScanner) : Type 0 where
  pub moved : Moved s t
  pub size : t.size ≡ s.size
  pub start : t.start ≤ s.start
  pub front : t.start + length s.held ≡ t.size → t.start ≡ 0

pub shift-Shifted : (s : LineScanner) → Shifted s (shift s)
unfolding shift
shift-Shifted s = elim (Bool-cases (ltb 0 s.start)) [
  | inr e ↦
      simp (e, shift)
        (record {
          moved = record { held = refl; source = refl; ended = refl };
          size = refl;
          start = omega arith;
          front = λ _. ground arith;
        })
  | inl e ↦ elim (Bool-cases ((s.start + length s.held == s.size) || ltb (s.size / 2) s.start)) [
    | inl f ↦
        simp (e, f, shift)
          (record {
            moved = record { held = refl; source = refl; ended = refl };
            size = refl;
            start = omega arith;
            front = λ _. refl;
          })
    | inr f ↦
        simp (e, f, shift)
          (record {
            moved = record { held = refl; source = refl; ended = refl };
            size = refl;
            start = omega arith;
            front = λ h. ground arith;
          })
  ]
]

grown_size_lem :
    (n : ℕ)
    → n < max_scan_token_size
    → (n < grown_size n)
      × (grown_size n ≤ max_scan_token_size)
      × (n ≡ 0 → grown_size n ≡ start_buf_size)
grown_size_lem n h = ground arith

leb_iff : (a b : ℕ) → (leb a b ≡ true) ↔ (a ≤ b)
leb_iff a b = ground arith

below : (a b : ℕ) → (a == b) ≡ false → a ≤ b → a < b
below a b e h = ground arith

-- A buffer with room, where there is one.
pub record Grown (s t : LineScanner) : Type 0 where
  pub moved : Moved s t
  pub bounded : t.size ≤ max_scan_token_size
  pub start : t.start ≤ s.start
  pub room : t.start + length s.held < t.size
  pub first : s.size ≡ 0 → t.size ≡ start_buf_size

pub grow-Grown :
    (s t : LineScanner)
    → Fits s
    → Shifted s t
    → ((grow t ≡ none) × (length s.held ≡ max_scan_token_size))
      ⊎ ((u : LineScanner) × (grow t ≡ some u) × Grown s u)
unfolding grow
grow-Grown s t v m =
    let same = ap length m.moved.held in
    elim (Bool-cases (t.start + length t.held == t.size)) [
      | inl e ↦
          let full : t.start + length s.held ≡ t.size =
            omega (arith, same, (==_iff (t.start + length t.held) t.size).0 e) in
          elim (Bool-cases (leb max_scan_token_size t.size)) [
            | inl f ↦ inl (
              simp (e, f, grow),
              omega (
                arith,
                full,
                m.front full,
                m.size,
                v.bounded,
                (leb_iff max_scan_token_size t.size).0 f,
              ),
            )
            | inr f ↦
                let (longer, bounded, first) = grown_size_lem t.size (ground arith) in
                inr (
                  record t { size = grown_size t.size; start = 0 },
                  simp (e, f, grow),
                  record {
                    moved = record {
                      held = m.moved.held;
                      source = m.moved.source;
                      ended = m.moved.ended;
                    };
                    bounded = bounded;
                    start = omega arith;
                    room = omega (arith, full, longer, m.front full);
                    first = λ z. first (m.size ∙ z);
                  },
                )
          ]
      | inr e ↦
          let room : t.start + length s.held < t.size = omega (
            arith,
            same,
            below (t.start + length t.held) t.size e
                (omega (arith, same, m.size, m.start, v.within)),
          ) in
          inr (
            t,
            simp (e, grow),
            record {
              moved = m.moved;
              bounded = omega (arith, v.bounded, m.size);
              start = m.start;
              room = room;
              first = λ z. absurd (omega (arith, z, m.size, room));
            },
          )
    ]
