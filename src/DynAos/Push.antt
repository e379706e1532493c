-- ===== src/DynAos/Push.antt =====
-- `aos_push_string` and `aos_pop_string` implement a stack of strings.
use prongc.Prelude.{
  suc, ◌+◌, ◌-◌, ◌^◌, ◌<◌, ◌≤◌, ◌≡◌, ap, ◌∙◌, some, List, [], ◌∷◌, ◌++◌, append-nil, length,
  length-append, All-append, All-front, take, take-length_append, Str, NoNul, arith, ◌==◌, false,
}
use prongc.DynAos.{
  DynamicAos, ok, Allocator, done, put_string, aos_push_string, aos_string_at, aos_pop_string,
  forget_last,
}
use prongc.DynAos.View.{
  pack, addresses, pack-append, addresses-append, length-addresses, length-strings,
  read_string-Holds, string_at-Holds, Holds,
}
use prongc.DynAos.Grow.{Grants, grow_data-HasRoom, grow_strings-Holds}

put_string-Holds :
    (b : DynamicAos) (ss : List Str) (str : Str)
    → Holds b ss
    → NoNul str
    → length b.block + (length str + 1) ≤ b.capacity
    → length b.strings + 1 ≤ b.strings_cap
    → Holds (put_string str b) (ss ++ str ∷ [])
unfolding put_string pack addresses
put_string-Holds b ss str h clean data_room room = record {
  packed = rw (pack-append, h.packed, append-nil);
  pointed = rw (addresses-append, h.pointed, h.packed);
  clean = All-append _ ss (str ∷ []) h.clean (clean, tt);
  fits = omega (arith, length-append b.block (str ++ 0 ∷ []), length-append str (0 ∷ []));
  has_room = omega (arith, length-append b.strings ((b.base + length b.block) ∷ []));
}

-- Pushing a C string onto an array that holds `ss`, while memory lasts, returns ERR_OK and leaves an
-- array that holds `ss` and then the string, whether or not a block had to move.
pub push-Holds :
    (alloc : Allocator) (a : DynamicAos) (ss : List Str) (str : Str)
    → Grants alloc
    → Holds a ss
    → NoNul str
    → (b : DynamicAos) × (aos_push_string alloc a str ≡ done b) × Holds b (ss ++ str ∷ [])
unfolding aos_push_string
push-Holds alloc a ss str grants h clean =
    let (b, run_b, holds_b, room_b) = grow_strings-Holds alloc grants a ss h in
    let (c, run_c, room_c) =
      grow_data-HasRoom alloc grants (length b.block + length str + 2) (length str + 1) b ss holds_b
        (omega arith) (omega arith) in
    (
      put_string str c,
      rw (run_b, run_c),
      put_string-Holds c ss str room_c.holds clean (omega (arith, room_c.data_room)) (
          omega (
            arith,
            length-strings b ss holds_b,
            length-strings c ss room_c.holds,
            room_c.same_cap,
          )),
    )

forget_last-Holds :
    (a : DynamicAos) (ss : List Str) (str : Str)
    → Holds a (ss ++ str ∷ [])
    → Holds (forget_last a str) ss
unfolding forget_last
forget_last-Holds a ss str h =
    let n : length a.strings ≡ length (addresses a.base ss) + 1 = omega (
      arith,
      length-strings a (ss ++ str ∷ []) h,
      length-append ss (str ∷ []),
      length-addresses a.base ss,
    ) in
    let packed : a.block ≡ pack ss ++ (str ++ 0 ∷ []) =
      h.packed ∙ (pack-append ss (str ∷ []) ∙ (unfold pack in rw append-nil)) in
    let m : length a.block ≡ length (pack ss) + (length str + 1) = omega (
      arith,
      ap length packed,
      length-append (pack ss) (str ++ 0 ∷ []),
      length-append str (0 ∷ []),
    ) in
    let kept : length a.block - (length str + 1) ≡ length (pack ss) = omega arith in
    let left : length a.strings - 1 ≡ length (addresses a.base ss) = omega arith in
    let block : take (length a.block - (length str + 1)) a.block ≡ pack ss =
      rw kept (rw packed (take-length_append (pack ss) _)) in
    let pointed : take (length a.strings - 1) a.strings ≡ addresses a.base ss =
      rw left (rw (h.pointed, addresses-append a.base ss (str ∷ [])) (take-length_append _ _)) in
    record {
      packed = block;
      pointed = pointed;
      clean = All-front _ ss (str ∷ []) h.clean;
      fits = rw block (omega (arith, h.fits));
      has_room = rw pointed (omega (arith, h.has_room));
    }

-- Popping an array that holds at least one string returns ERR_OK and takes off the last string.
pub pop-Holds :
    (a : DynamicAos) (ss : List Str) (str : Str)
    → Holds a (ss ++ str ∷ [])
    → NoNul str
    → length ss + 1 < 2 ^ 64
    → (b : DynamicAos) × (aos_pop_string a ≡ some (b, ok)) × Holds b ss
unfolding aos_pop_string
pop-Holds a ss str h clean small =
    let n : length a.strings ≡ suc (length ss) =
      length-strings a (ss ++ str ∷ []) h ∙ (length-append ss (str ∷ []) ∙ (omega arith)) in
    let at : aos_string_at a (length a.strings - 1) ≡ some (some (a.base + length (pack ss))) =
      ap (aos_string_at a) (omega arith)
      ∙ string_at-Holds a ss str [] h (omega (arith, length-append ss (str ∷ []))) in
    let nonempty : (length a.strings == 0) ≡ false = ground (arith, n) in
    (
      forget_last a str,
      rw (nonempty, at, read_string-Holds a ss str [] h clean),
      forget_last-Holds a ss str h,
    )
