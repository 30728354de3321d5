-- ===== src/Klib/Strings/Text.antt =====
-- Strings in memory: their length, and copying them.
use pepin_os.Base.{
  ℕ, zero, suc, ◌+◌, ◌≤◌, ◌<◌, ◌≡◌, refl, ap, ◌∙◌, ◌≢◌, ◌⊎◌, inl, arith, ◌==◌, false, some, List,
  [], ◌∷◌, update, update_self, length,
}
use pepin_os.Base.Memory.{Memory}
use pepin_os.Klib.Strings.{strlen_from, kstrlen, kstrcpy}

-- The string at an address: its bytes, with a 0 behind the last one.
pub data IsText (m : Memory) : ℕ → List ℕ → Type 0 where
  ends : (a : ℕ) → m a ≡ 0 → IsText m a []
  goes : (a c : ℕ) {cs : List ℕ} → m a ≡ c → c ≢ 0 → IsText m (suc a) cs → IsText m a (c ∷ cs)

strlen_from_lem :
    (fuel n s a : ℕ) (m : Memory) (cs : List ℕ)
    → s + n ≡ a
    → IsText m a cs
    → length cs < fuel
    → strlen_from fuel n s m ≡ some (n + length cs)
unfolding strlen_from
strlen_from_lem zero n s a m cs e t h = elim h [ ]
strlen_from_lem (suc fuel) n s a m [] e (ends _ z) h = ground (arith, z, ap m e)
strlen_from_lem (suc fuel) n s a m (c ∷ cs) e (goes _ _ mc nz t) h = ground (
  arith,
  nz,
  ap m e,
  strlen_from_lem fuel (suc n) s (suc a) m cs (omega (arith, e)) t (omega (arith, h)),
)

-- With more fuel than it has bytes, `kstrlen` gives the length of a string.
kstrlen_lem :
    (fuel s : ℕ) (m : Memory) (cs : List ℕ)
    → IsText m s cs
    → length cs < fuel
    → kstrlen fuel s m ≡ some (length cs)
unfolding kstrlen
kstrlen_lem fuel s m cs t h =
    strlen_from_lem fuel 0 s s m cs (omega arith) t h ∙ ap some (omega arith)

-- A string is the same where its bytes are.
same_IsText :
    (m m' : Memory) (a : ℕ) (cs : List ℕ)
    → ((x : ℕ) → a ≤ x → x ≤ a + length cs → m' x ≡ m x)
    → IsText m a cs
    → IsText m' a cs
same_IsText m m' a [] same (ends _ z) = ends a (same a (omega arith) (omega arith) ∙ z)
same_IsText m m' a (c ∷ cs) same (goes _ _ mc nz t) =
    goes a c (same a (omega arith) (omega arith) ∙ mc) nz
      (same_IsText m m' (suc a) cs (λ x lo hi. same x (omega (arith, lo)) (omega (arith, hi))) t)

-- The copy of a string.
pub record Copied (fuel dst src : ℕ) (cs : List ℕ) (m : Memory) : Type 0 where
  pub out : Memory
  pub ended : kstrcpy fuel dst src m ≡ some out
  pub copy : IsText out dst cs
  pub outside : (x : ℕ) → (x < dst) ⊎ (dst + length cs < x) → out x ≡ m x

-- With more fuel than bytes, and room for the copy apart from the string, `kstrcpy` makes a copy and
-- changes nothing else.
pub kstrcpy_lem :
    (fuel dst src : ℕ) (cs : List ℕ) (m : Memory)
    → IsText m src cs
    → length cs < fuel
    → (dst + length cs < src) ⊎ (src + length cs < dst)
    → Copied fuel dst src cs m
unfolding kstrcpy
kstrcpy_lem zero dst src cs m t h apart = elim h [ ]
kstrcpy_lem (suc fuel) dst src [] m (ends _ z) h apart = record {
  out = update m dst (m src);
  ended = rw z refl;
  copy = ends dst (update_self m dst (m src) ∙ z);
  outside = λ x o. ground (arith, o);
}
kstrcpy_lem (suc fuel) dst src (c ∷ cs) m (goes _ _ mc nz t) h apart =
    let m' = update m dst (m src) in
    let kept = same_IsText m m' (suc src) cs (λ x lo hi. ground (arith, apart, lo, hi)) t in
    let room : (suc dst + length cs < suc src) ⊎ (suc src + length cs < suc dst) =
      ground (arith, apart) in
    let rest = kstrcpy_lem fuel (suc dst) (suc src) cs m' kept (omega (arith, h)) room in
    let more : m src == 0 ≡ false = ground (arith, mc, nz) in
    record {
      out = rest.out;
      ended = rw more rest.ended;
      copy =
          goes dst c (rest.outside dst (inl (omega arith)) ∙ update_self m dst (m src) ∙ mc) nz
            rest.copy;
      outside = λ x o.
          let beyond : (x < suc dst) ⊎ (suc dst + length cs < x) = ground (arith, o) in
          rest.outside x beyond ∙ ground (arith, o);
    }
