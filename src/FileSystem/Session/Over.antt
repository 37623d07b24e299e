-- ===== src/FileSystem/Session/Over.antt =====
-- The bytes of a text that was written over.
use very_simple_file_system.Base.{
  ℕ, ◌+◌, ◌-◌, ◌≤◌, ◌<◌, ◌≡◌, ap, ◌∙◌, ◌++◌, leb, if◌then◌else◌, length, take, drop, get_or, arith,
  length-append, length-take, length-drop, get_or-append, get_or-take, get_or-drop, lt-cases, inl,
  inr,
}
use very_simple_file_system.Disk.{Bytes, Disk, patch}
use very_simple_file_system.FileSystem.Session.{over}

module _ (at : ℕ) (str content : Bytes) (h : at ≤ length content) where
  pub length-over :
      length (over at str content)
      ≡ (if leb (at + length str) (length content) then length content else at + length str)
  unfolding over
  length-over =
      let parts = length-append (take at content) (str ++ drop (at + length str) content) in
      let rest = length-append str (drop (at + length str) content) in
      let first = length-take at content in
      let last = length-drop (at + length str) content in ground (arith, parts, rest, first, last)

  -- Written over, the bytes are those of a patch.
  pub get_or-over :
      (f : Disk) (p : ℕ)
      → (p < length content → f p ≡ get_or content p 0)
      → p < length (over at str content)
      → patch at str f p ≡ get_or (over at str content) p 0
  unfolding over patch
  get_or-over f p g l =
      let first = length-take at content in
      let whole = get_or-append (take at content) (str ++ drop (at + length str) content) p 0 in
      let rest =
        get_or-append str (drop (at + length str) content) (p - length (take at content)) 0 in
      elim (lt-cases p at) [
        | inl below ↦ ground (arith, whole, first, g, get_or-take at content p 0 below)
        | inr above ↦ elim (lt-cases p (at + length str)) [
          | inl inside ↦
              let e : p - length (take at content) ≡ p - at = omega (arith, first) in
              ground (arith, whole, first, rest, e, ap (λ k. get_or str k 0) e)
          | inr behind ↦
              let q : p - length (take at content) - length str ≡ p - (at + length str) =
                omega (arith, first) in
              let z : at + length str + (p - (at + length str)) ≡ p = omega arith in
              let far : get_or (drop (at + length str) content) (p - (at + length str)) 0
                  ≡ get_or content p 0 =
                get_or-drop (at + length str) content (p - (at + length str)) 0
                ∙ ap (λ k. get_or content k 0) z in
              let there : p < length content = ground (arith, length-over, above, behind) in
              ground (
                arith,
                whole,
                first,
                rest,
                g there,
                ap (λ k. get_or (drop (at + length str) content) k 0) q,
                far,
              )
        ]
      ]
