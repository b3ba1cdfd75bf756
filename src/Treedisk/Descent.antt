-- ===== src/Treedisk/Descent.antt =====
-- The loop of `treedisk_write` of egos-2000/library/file/file1.c down a tree, to a data block or to a
-- hole.
use operating_systems_compon.Base.{
  ℕ, suc, ◌<◌, ◌≡◌, ◌≢◌, refl, ◌∙◌, some, List, [], ◌∷◌, length, arith, ne→==,
}
use operating_systems_compon.Treedisk.Store.{Block, InodeStore, IsStore, IsWritable}
use operating_systems_compon.Treedisk.Slots.{Avoids}
use operating_systems_compon.Treedisk.Supply.{Avoids-head, Avoids-tail, IsReady, IsReady-frame}
use operating_systems_compon.Treedisk.Walk.{leads_data, leads_down}
use operating_systems_compon.Treedisk.Hole.{
  Outside, outside_cons, Way, way_hole, way_data, way_down, Fills, write_walk-hole, put, puts, same,
  other,
}
use operating_systems_compon.Treedisk.{ok, Snapshot, index_at, write_walk}

pub Outside-head : (xs : List ℕ) (b : ℕ) (bs : List ℕ) → Outside xs (b ∷ bs) → Avoids b xs
Outside-head xs b bs (outside_cons a o) = a

pub Outside-tail : (xs : List ℕ) (b : ℕ) (bs : List ℕ) → Outside xs (b ∷ bs) → Outside xs bs
Outside-tail xs b bs (outside_cons a o) = o

module _ {St : Type 0} (below : InodeStore St) (ino offset : ℕ) where
  -- A write to a block that the way does not pass.
  pub Way-frame :
      (s s' : St)
      → (level b : ℕ) (bs : List ℕ) → Way below ino s offset level b bs
      → ((o : ℕ) → o ≢ 0 → ¬ Avoids o bs → below.read s' ino o ≡ below.read s ino o)
      → Way below ino s' offset level b bs
  Way-frame s s' _ _ _ (way_hole e) h = way_hole e
  Way-frame s s' _ _ _ (way_data ne) h = way_data ne
  Way-frame s s' _ _ _ (way_down {level} {b} {refs} {bs} ne r a w) h =
      way_down ne (h b ne (λ c. Avoids-head b b bs c refl) ∙ r) a (
        Way-frame s s' level (refs (index_at offset level)) bs w
          (λ o no c. h o no (λ d. c (Avoids-tail o b bs d))))

module _ {St : Type 0} {below : InodeStore St} (law : IsStore below) (can : IsWritable below)
    (ino offset : ℕ) (block : Block) where
  module _ (s : St) (snap : Snapshot) (parent : Block) (word off : ℕ) where
    write_walk-data :
        parent word ≢ 0
        → write_walk below ino 0 offset block s snap parent word off
          ≡ ok (put law can ino offset block s (parent word) block)
    unfolding write_walk
    write_walk-data ne = rw (ne→== _ _ ne, can.write_ok s ino (parent word) block) refl

    write_walk-down :
        (level : ℕ) (refs : Block)
        → parent word ≢ 0
        → below.read s ino (parent word) ≡ some refs
        → write_walk below ino (suc level) offset block s snap parent word off
          ≡ write_walk below ino level offset block s snap refs
              (index_at offset level)
              (parent word)
    unfolding write_walk
    write_walk-down level refs ne r = rw (ne→== _ _ ne, r) refl

    data-Fills :
        (xs : List ℕ)
        → IsReady below ino s snap xs
        → below.read s ino off ≡ some parent
        → parent word ≢ 0
        → off ≢ parent word
        → Avoids (parent word) xs
        → Fills below ino s
            (put law can ino offset block s (parent word) block)
            snap
            (parent word ∷ [])
            xs
            0
            offset
            block
            parent
            word
            off
    data-Fills xs v here ne apart a = record {
      snap' = snap;
      rest = xs;
      ready =
          IsReady-frame law ino s (put law can ino offset block s (parent word) block) snap
            (parent word) block xs (puts law can ino offset block s (parent word) block) ne a v;
      inode = record { inodeblock = refl; inode_blockno = refl; slot = refl; count = refl };
      spared = λ o c. c;
      refs = parent;
      holds = other law can ino offset block s (parent word) off block apart ∙ here;
      others = λ j nj. refl;
      way = [];
      target = parent word;
      leads = leads_data ne;
      written = same law can ino offset block s (parent word) block;
      frame = λ o no nf c d.
          other law can ino offset block s (parent word) o block (Avoids-head o (parent word) [] c);
    }

    down-Fills :
        (s' : St) (level : ℕ) (refs : Block) (bs xs : List ℕ)
        → below.read s ino off ≡ some parent
        → off ≢ 0
        → Avoids off (parent word ∷ bs)
        → Avoids off xs
        → parent word ≢ 0
        → Fills below ino s s' snap bs xs level offset block refs
            (index_at offset level)
            (parent word)
        → Fills below ino s s' snap (parent word ∷ bs) xs (suc level) offset block parent word off
    down-Fills s' level refs bs xs here no_super a c ne f = record {
      snap' = f.snap';
      rest = f.rest;
      ready = f.ready;
      inode = f.inode;
      spared = f.spared;
      refs = parent;
      holds =
          f.frame off no_super (Avoids-head off (parent word) bs a)
            (Avoids-tail off (parent word) bs a) c
          ∙ here;
      others = λ j nj. refl;
      way = parent word ∷ f.way;
      target = f.target;
      leads = leads_down ne f.holds f.leads;
      written = f.written;
      frame = λ o no nf d e.
          f.frame o no (Avoids-head o (parent word) bs d) (Avoids-tail o (parent word) bs d) e;
    }

  -- From a block that the way does not pass, the loop reaches the offset and writes the block there.
  pub write_walk-Fills :
      (s : St) (snap : Snapshot) (xs : List ℕ) (level b : ℕ) (bs : List ℕ) (parent : Block)
      (word off : ℕ)
      → Way below ino s offset level b bs
      → parent word ≡ b
      → IsReady below ino s snap xs
      → below.read s ino off ≡ some parent
      → off ≢ 0
      → Avoids off bs
      → Avoids off xs
      → Outside xs bs
      → level < length xs
      → (s' : St) × (write_walk below ino level offset block s snap parent word off ≡ ok s')
        × Fills below ino s s' snap bs xs level offset block parent word off
  write_walk-Fills s snap xs level _ _ parent word off (way_hole z) e v here no_super a c out
        enough =
      write_walk-hole law can ino offset block level s snap parent word off xs (e ∙ z) v no_super c
        enough
  write_walk-Fills s snap xs _ _ _ parent word off (way_data {b} ne) e v here no_super a c out
        enough =
      let used : parent word ≢ 0 = rw e ne in
      (
        put law can ino offset block s b block,
        rw e at (write_walk-data s snap parent word off used),
        rw e at (
            data-Fills s snap parent word off xs v here used (rw e (Avoids-head off b [] a))
              (rw e (Outside-head xs b [] out))),
      )
  write_walk-Fills s snap xs _ _ _ parent word off (way_down {level} {b} {refs} {bs} ne r av w) e v
        here no_super a c out enough =
      let used : parent word ≢ 0 = rw e ne in
      let (s', h, f) =
        write_walk-Fills s snap xs level (refs (index_at offset level)) bs refs
          (index_at offset level) b w refl v r ne av (Outside-head xs b bs out)
          (Outside-tail xs b bs out) (omega arith) in
      (
        s',
        write_walk-down s snap parent word off level refs used (rw e r) ∙ rw e h,
        rw e at (
            down-Fills s snap parent word off s' level refs bs xs here no_super (rw e a) c used
              (rw e f)),
      )
