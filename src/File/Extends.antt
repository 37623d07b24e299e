-- ===== src/File/Extends.antt =====
-- What adding blocks to a file keeps: its content, the rest of the disk, and that it is stored.
use very_simple_file_system.Base.{ℕ, ◌+◌, ◌≤◌, ◌<◌, ◌≡◌, ◌∙◌, arith, ◌==◌, if◌then◌else◌}
use very_simple_file_system.Layout.{minus_one}
use very_simple_file_system.Disk.{Disk}
use very_simple_file_system.Inode.{Inode}
use very_simple_file_system.File.Blocks.{file_bytes}
use very_simple_file_system.File.Stored.{IsStored, IsForeign, KeepsMarks}

-- Only the capacity and the address of the indirect block differ.
abbrev pub SameOthers : Inode → Inode → Type 0
SameOthers node node' = node' ≡ record node { addr_1 = node'.addr_1; capacity = node'.capacity }

pub record Extends (node : Inode) (d : Disk) (node' : Inode) (d' : Disk) : Type 0 where
  pub others : SameOthers node node'
  pub larger : node.capacity ≤ node'.capacity
  pub stored : IsStored node' d'
  pub bytes : (p : ℕ) → p < node.capacity → file_bytes node' d' p ≡ file_bytes node d p
  pub frame : (a : ℕ) → IsForeign node d a → d' a ≡ d a
  pub foreign : (a : ℕ) → IsForeign node d a → IsForeign node' d' a
  pub marks : KeepsMarks d d'

pub SameOthers-trans : (n m k : Inode) → SameOthers n m → SameOthers m k → SameOthers n k
SameOthers-trans n m k p q = q ∙ (λ i. record (p i) { addr_1 = k.addr_1; capacity = k.capacity })

pub Extends-trans :
    (n m k : Inode) (d e f : Disk) → Extends n d m e → Extends m e k f → Extends n d k f
Extends-trans n m k d e f x y = record {
  others = SameOthers-trans n m k x.others y.others;
  larger = omega (arith, x.larger, y.larger);
  stored = y.stored;
  bytes = λ p h. y.bytes p (omega (arith, x.larger)) ∙ x.bytes p h;
  frame = λ a h. y.frame a (x.foreign a h) ∙ x.frame a h;
  foreign = λ a h. y.foreign a (x.foreign a h);
  marks = λ a l h ne. y.marks a l h (x.marks a l h ne);
}

-- The blocks that one `grow` takes.
abbrev pub grow_cost : Inode → ℕ
grow_cost node = 1 + (if node.addr_1 == minus_one then 1 else 0)

pub grow_cost_le : (node : Inode) → grow_cost node ≤ 2
grow_cost_le node = ground arith
