-- ===== src/FileSystem/Session/Refines.antt =====
-- The commands on a descriptor refine the operations on the abstract file.
use very_simple_file_system.Base.{
  ℕ, ◌+◌, ◌≤◌, ◌<◌, ◌≡◌, refl, ap, sym, subst, ◌∙◌, List, [], ◌∷◌, ◌++◌, Option, some, none, ◌&&◌,
  ltb, leb, if◌then◌else◌, length, take, drop, get_or, arith, length-take, length-drop, get_or-take,
  get_or-drop, lt-cases, inl, inr, some_eq, none-ne-some, if-some,
}
use very_simple_file_system.Run.{Returns}
use very_simple_file_system.Layout.{add32, cap_1}
use very_simple_file_system.Disk.{Bytes, fetch}
use very_simple_file_system.Disk.Bytes.{fetch-eq_get_or}
use very_simple_file_system.Table.{c_str}
use very_simple_file_system.Inode.Codec.{inode_at}
use very_simple_file_system.File.Blocks.{file_bytes}
use very_simple_file_system.File.Append.{Known, EnoughBlocks}
use very_simple_file_system.File.Sound.{IsOpenFile}
use very_simple_file_system.FileSystem.State.{FileSystem, OpenFile, endl}
use very_simple_file_system.FileSystem.Descriptor.{fd_find, fd_set_offset, seek}
use very_simple_file_system.FileSystem.Descriptor.Laws.{fd_find-set_offset}
use very_simple_file_system.FileSystem.Content.Write.{IsWriteOf, write_-IsWriteOf}
use very_simple_file_system.FileSystem.Content.Read.{wanted, read_inside}
use very_simple_file_system.FileSystem.Session.{
  Op, put, go, get, Text, over, text_step, text_run, do_op, do_ops,
}
use very_simple_file_system.FileSystem.Session.Over.{length-over, get_or-over}

-- The descriptor `fd` is open on the inode `i`, which holds the text, and there is room for it up to
-- `limit`.
pub record IsText (limit fd i : ℕ) (a : Text) (s : FileSystem) : Type 0 where
  pub known : fd_find fd s.fd_map ≡ some (record { i_id = i; offset = a.position })
  pub file : IsOpenFile s.disk i
  pub size : (inode_at i s.disk).size ≡ length a.content
  pub bytes :
      (p : ℕ)
      → p < length a.content
      → file_bytes (inode_at i s.disk) s.disk p ≡ get_or a.content p 0
  pub room : EnoughBlocks (inode_at i s.disk) limit s.disk
  pub cout : s.cout ≡ a.shown

-- The text after a write, what a read gives, and the text after it.
abbrev longer : Bytes → Text → Text
longer str a = record a {
  content = over a.position str a.content;
  position = a.position + length str;
}

abbrev part : ℕ → Text → Bytes
part n a = take n (drop a.position a.content)

abbrev seen : ℕ → Text → Text
seen n a = record a { position = a.position + n; shown = a.shown ++ (c_str (part n a) ++ endl) }

module _ (limit fd i : ℕ) (small : limit < cap_1) (a : Text) (s : FileSystem)
    (v : IsText limit fd i a s) where
  abbrev at : OpenFile
  at = record { i_id = i; offset = a.position }

  module _ (str : Bytes) (h : a.position ≤ length a.content)
      (l : a.position + length str < limit) where
    -- A byte of the new text is an old one or one that was written.
    new-Known :
        (p : ℕ)
        → p < length (longer str a).content
        → Known (inode_at i s.disk) a.position (length str) p
    new-Known p q = elim (lt-cases p (length a.content)) [
      | inl old ↦ inl (omega (arith, v.size, v.file.size_le))
      | inr new ↦ inr (omega arith, ground (arith, length-over a.position str a.content h))
    ]

    written-IsText : (t : FileSystem) → IsWriteOf s fd at str t → IsText limit fd i (longer str a) t
    written-IsText t w = record {
      known = w.position ∙ ap (λ k. some (record { i_id = i; offset = k })) (omega (arith, small));
      file = w.change.file;
      size =
          w.size
          ∙ ap (λ k. if leb (a.position + length str) k then k else a.position + length str) v.size
          ∙ sym (length-over a.position str a.content h);
      bytes = λ p q.
          w.content p (new-Known p q)
          ∙ get_or-over a.position str a.content h (file_bytes (inode_at i s.disk) s.disk) p
              (v.bytes p) q;
      room = omega (arith, w.budget, v.room);
      cout = ap (λ (u : FileSystem). u.cout) w.kept ∙ v.cout;
    }

    put-IsText : Returns (λ r t. IsText limit fd i (longer str a) t) (do_op fd (put str) s)
    put-IsText =
        let (r, t, run, w) =
          write_-IsWriteOf s fd at str v.known v.file (omega arith) (omega (arith, v.room)) in
        (tt, t, rw run refl, written-IsText t w)

  go-IsText :
      (to : ℕ)
      → Returns (λ r t. IsText limit fd i (record a { position = to }) t) (do_op fd (go to) s)
  unfolding seek
  go-IsText to = (
    tt,
    record s { fd_map = fd_set_offset fd to s.fd_map },
    ground (arith, v.known),
    record {
      known = ground (arith, v.known, fd_find-set_offset fd fd to s.fd_map);
      file = v.file;
      size = v.size;
      bytes = v.bytes;
      room = v.room;
      cout = v.cout;
    },
  )

  module _ (n : ℕ) (h : a.position < length a.content) (l : a.position + n ≤ length a.content) where
    length-part : length (part n a) ≡ n
    length-part =
        omega (arith, length-take n (drop a.position a.content), length-drop a.position a.content)

    -- The bytes that are read.
    wanted-part : wanted s at n ≡ (part n a)
    wanted-part =
        ap (λ k. fetch a.position k (file_bytes (inode_at i s.disk) s.disk)) (sym length-part)
        ∙ fetch-eq_get_or a.position (part n a) (file_bytes (inode_at i s.disk) s.disk) (λ k q.
          let in_part : k < n = omega (arith, length-part) in
          v.bytes (a.position + k) (omega arith)
          ∙ sym (get_or-drop a.position a.content k 0)
          ∙ sym (get_or-take n (drop a.position a.content) k 0 in_part))

    abbrev after : FileSystem
    after = record s {
      cout = s.cout ++ (c_str (wanted s at n) ++ endl);
      fd_map = fd_set_offset fd (add32 a.position n) s.fd_map;
    }

    moved_on : add32 a.position n ≡ a.position + n
    moved_on = omega (arith, v.size, v.file.size_le, v.file.stored.file.at_most)

    after-IsText : IsText limit fd i (seen n a) after
    after-IsText = record {
      known =
          ground (arith, v.known, fd_find-set_offset fd fd (add32 a.position n) s.fd_map)
          ∙ ap (λ k. some (record { i_id = i; offset = k })) moved_on;
      file = v.file;
      size = v.size;
      bytes = v.bytes;
      room = v.room;
      cout =
          ap (λ b. s.cout ++ (c_str b ++ endl)) wanted-part
          ∙ ap (λ o. o ++ (c_str (part n a) ++ endl)) v.cout;
    }

    get-IsText : Returns (λ r t. IsText limit fd i (seen n a) t) (do_op fd (get n) s)
    get-IsText = (
      tt,
      after,
      rw (read_inside s fd at n v.known v.file (omega (arith, v.size)) (omega (arith, v.size)))
          refl,
      after-IsText,
    )

-- One operation.
op-IsText :
    (limit fd i : ℕ)
    → limit < cap_1
    → (op : Op) (a b : Text) (s : FileSystem) → IsText limit fd i a s
    → text_step limit op a ≡ some b
    → Returns (λ r t. IsText limit fd i b t) (do_op fd op s)
unfolding text_step
op-IsText limit fd i small (put str) a b s v run =
    let fits = leb a.position (length a.content) && ltb (a.position + length str) limit in
    if-some fits (longer str a) b
      (λ c. Returns (λ r t. IsText limit fd i c t) (do_op fd (put str) s))
      (λ e. put-IsText limit fd i small a s v str (ground arith) (ground arith)) run
op-IsText limit fd i small (go to) a b s v run =
    subst (λ c. Returns (λ r t. IsText limit fd i c t) (do_op fd (go to) s))
      (some_eq (record a { position = to }) b run) (go-IsText limit fd i small a s v to)
op-IsText limit fd i small (get n) a b s v run =
    let inside = ltb a.position (length a.content) && leb (a.position + n) (length a.content) in
    if-some inside (seen n a) b (λ c. Returns (λ r t. IsText limit fd i c t) (do_op fd (get n) s))
      (λ e. get-IsText limit fd i small a s v n (ground arith) (ground arith)) run

-- A run of several operations starts with the first.
run_cons :
    (o : Option Text) (g : Text → Option Text) (b : Text)
    → elim o [ none ↦ none | some c ↦ g c ] ≡ some b
    → (c : Text) × (o ≡ some c) × (g c ≡ some b)
run_cons none g b e = absurd (none-ne-some b e)
run_cons (some c) g b e = (c, refl, e)

-- Where a descriptor is open on a file that holds the text of an abstract file at its position,
-- with enough free blocks up to a limit below the largest file size, and the abstract file goes
-- through a list of operations (a write that begins inside the text or at its end and ends below
-- the limit, any new position, a read inside the text): the same commands `write_`, `seek` and
-- `read` on the descriptor end without a fault, and the file holds the text, the descriptor the
-- position, and the output what the abstract file has after them.
pub do_ops-IsText :
    (limit fd i : ℕ) (ops : List Op) (a b : Text) (s : FileSystem)
    → limit < cap_1
    → IsText limit fd i a s
    → text_run limit ops a ≡ some b
    → Returns (λ r t. IsText limit fd i b t) (do_ops fd ops s)
unfolding text_run do_ops
do_ops-IsText limit fd i [] a b s small v run =
    (tt, s, refl, subst (λ c. IsText limit fd i c s) (some_eq a b run) v)
do_ops-IsText limit fd i (op ∷ ops) a b s small v run =
    let (c, one, more) = run_cons (text_step limit op a) (text_run limit ops) b run in
    let (r, t, ran, w) = op-IsText limit fd i small op a c s v one in
    let (q, u, rest, x) = do_ops-IsText limit fd i ops c b t small w more in (q, u, rw ran rest, x)
