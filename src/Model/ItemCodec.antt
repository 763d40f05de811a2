-- ===== src/Model/ItemCodec.antt =====
-- Items over the wire.
use ue4team_project_server.Common.{
  append_assoc, append-nil, sym, ap, [], subst, ℕ, ◌+◌, ◌^◌, ◌<◌, ◌≡◌, List, ◌++◌, length, ok,
  arith,
}
use ue4team_project_server.Stream.Bytes.{to_bytes}
use ue4team_project_server.Stream.ByteStream.{ByteStream}
use ue4team_project_server.Stream.OutputStream.{Writer}
use ue4team_project_server.Stream.InputStream.{Reader, ◌>>=◌, pure}
use ue4team_project_server.Stream.RoundTrip.{reopen, reread}
use ue4team_project_server.Stream.InputStream.Reads.{Reads, Reads-bind, Reads-last, Reads-fixed}
use ue4team_project_server.Stream.OutputStream.Writes.{IsValid, Writes, Writes-seq, Writes-fixed}
use ue4team_project_server.Model.Item.{
  write_class, EquipStat, Class, plain, consume, equip, Item, write_base, write_stat, write_item,
  read_stat, read_item,
}

pub record IsEquipStat (e : EquipStat) : Type 0 where
  pub atk_fits : e.add_atk < 2 ^ 32
  pub def_fits : e.add_def < 2 ^ 32
  pub str_fits : e.add_str < 2 ^ 32
  pub dex_fits : e.add_dex < 2 ^ 32
  pub int_fits : e.add_int < 2 ^ 32

abbrev pub IsClass : Class → Type 0
IsClass plain = Unit
IsClass consume = Unit
IsClass (equip e) = IsEquipStat e

-- Every number is an int32 pattern.
pub record IsItem (i : Item) : Type 0 where
  pub type_fits : i.item_type < 2 ^ 32
  pub itemid_fits : i.itemid < 2 ^ 32
  pub class_fits : IsClass i.class

abbrev stat_bytes : EquipStat → List ℕ
stat_bytes e =
    to_bytes 4 e.add_atk
    ++ (to_bytes 4 e.add_def
        ++ (to_bytes 4 e.add_str ++ (to_bytes 4 e.add_dex ++ to_bytes 4 e.add_int)))

abbrev class_bytes : Class → List ℕ
class_bytes plain = []
class_bytes consume = []
class_bytes (equip e) = stat_bytes e

-- The type, the id, and an equip item's five values.
abbrev pub item_bytes : Item → List ℕ
item_bytes i = to_bytes 4 i.item_type ++ (to_bytes 4 i.itemid ++ class_bytes i.class)

write_stat-Writes : (e : EquipStat) → IsEquipStat e → Writes (write_stat e) (stat_bytes e)
write_stat-Writes e h = Writes-seq _ _ _ _ (Writes-fixed 4 e.add_atk (omega arith)) (
    Writes-seq _ _ _ _ (Writes-fixed 4 e.add_def (omega arith)) (
      Writes-seq _ _ _ _ (Writes-fixed 4 e.add_str (omega arith)) (
        Writes-seq _ _ _ _ (Writes-fixed 4 e.add_dex (omega arith))
          (Writes-fixed 4 e.add_int (omega arith)))))

read_stat-Reads : (e : EquipStat) → IsEquipStat e → Reads read_stat (stat_bytes e) e
read_stat-Reads e h = Reads-bind _ _ _ _ e.add_atk e (Reads-fixed 4 e.add_atk h.atk_fits) (
    Reads-bind _ _ _ _ e.add_def e (Reads-fixed 4 e.add_def h.def_fits) (
      Reads-bind _ _ _ _ e.add_str e (Reads-fixed 4 e.add_str h.str_fits) (
        Reads-bind _ _ _ _ e.add_dex e (Reads-fixed 4 e.add_dex h.dex_fits)
          (Reads-last _ _ _ e.add_int (Reads-fixed 4 e.add_int h.int_fits)))))

write_base-Writes :
    (i : Item)
    → i.item_type < 2 ^ 32
    → i.itemid < 2 ^ 32
    → Writes (write_base i) (to_bytes 4 i.item_type ++ to_bytes 4 i.itemid)
write_base-Writes i t d =
    Writes-seq _ _ _ _ (Writes-fixed 4 i.item_type (omega arith))
      (Writes-fixed 4 i.itemid (omega arith))

Writes-eq : (w : Writer) (xs ys : List ℕ) → xs ≡ ys → Writes w xs → Writes w ys
Writes-eq w xs ys e h = subst (λ zs. Writes w zs) e h

write_class-Writes :
    (c : Class) (i : Item)
    → i.item_type < 2 ^ 32
    → i.itemid < 2 ^ 32
    → IsClass c
    → Writes (write_class c i) (to_bytes 4 i.item_type ++ (to_bytes 4 i.itemid ++ class_bytes c))
unfolding write_class
write_class-Writes plain i t d h =
    Writes-eq _ _ _
      (ap (λ zs. to_bytes 4 i.item_type ++ zs) (sym (append-nil (to_bytes 4 i.itemid))))
      (write_base-Writes i t d)
write_class-Writes consume i t d h =
    Writes-eq _ _ _
      (ap (λ zs. to_bytes 4 i.item_type ++ zs) (sym (append-nil (to_bytes 4 i.itemid))))
      (write_base-Writes i t d)
write_class-Writes (equip e) i t d h =
    Writes-eq _ _ _ (append_assoc (to_bytes 4 i.item_type) (to_bytes 4 i.itemid) (stat_bytes e))
      (Writes-seq _ _ _ _ (write_base-Writes i t d) (write_stat-Writes e h))

pub write_item-Writes : (i : Item) → IsItem i → Writes (write_item i) (item_bytes i)
unfolding write_item
write_item-Writes i h = write_class-Writes i.class i h.type_fits h.itemid_fits h.class_fits

Reads-end :
    {A B : Type 0} (m : Reader A) (f : A → B) (xs : List ℕ) (a : A)
    → Reads m xs a
    → Reads (m >>= λ x. pure (f x)) (xs ++ []) (f a)
Reads-end m f xs a h =
    subst (λ zs. Reads (m >>= λ x. pure (f x)) zs (f a)) (sym (append-nil xs))
      (Reads-last m f xs a h)

read_class-Reads :
    (c : Class) (t d : ℕ)
    → t < 2 ^ 32
    → d < 2 ^ 32
    → IsClass c
    → Reads
        (read_item c)
        (to_bytes 4 t ++ (to_bytes 4 d ++ class_bytes c))
        (record { item_type = t; itemid = d; class = c })
unfolding read_item
read_class-Reads plain t d ht hd h =
    Reads-bind _ _ _ _ t _ (Reads-fixed 4 t ht) (Reads-end _ _ _ d (Reads-fixed 4 d hd))
read_class-Reads consume t d ht hd h =
    Reads-bind _ _ _ _ t _ (Reads-fixed 4 t ht) (Reads-end _ _ _ d (Reads-fixed 4 d hd))
read_class-Reads (equip e) t d ht hd h =
    Reads-bind _ _ _ _ t _ (Reads-fixed 4 t ht)
      (Reads-bind _ _ _ _ d _ (Reads-fixed 4 d hd) (Reads-last _ _ _ e (read_stat-Reads e h)))

pub read_item-Reads : (i : Item) → IsItem i → Reads (read_item i.class) (item_bytes i) i
read_item-Reads i h =
    read_class-Reads i.class i.item_type i.itemid h.type_fits h.itemid_fits h.class_fits

-- An item whose fields fit, written behind whatever a valid stream holds below 2 ^ 61 bytes, is read
-- back as it was by an object of its own class, and exactly its bytes are consumed.
pub item_round_trip :
    (i : Item) (s : ByteStream)
    → IsItem i
    → IsValid s
    → s.access_offset + length (item_bytes i) < 2 ^ 61
    → (t : ByteStream) × (write_item i s ≡ ok t)
      × (read_item i.class (reopen s t)
          ≡ ok (i, record (reopen s t) { access_offset = t.access_offset }))
item_round_trip i s h v small =
    reread (write_item i) (read_item i.class) (item_bytes i) i (write_item-Writes i h)
      (read_item-Reads i h) s v small
