-- ===== src/CType/Same.antt =====
-- src/cc/type.c: `same_type` is equality up to what it does not compare.
use my9cc.CType.{
  CType, FixnumKind, FlonumKind, void, fixnum, flonum, ptr, array, func, struct, ParamTypes,
  unspecified, listed, CTypes, nil, cons, kind_eq, flonum_eq, bool_eq, same_struct, length_eq,
  same_type, same_params, same_types,
}
use my9cc.Prelude.{ℕ, Bool, true, false, ◌&&◌, Option, none, some, ◌≡◌, refl, ◌↔◌, arith, and_true}
use my9cc.Prelude.Int.{ℤ, pos, negsuc}

-- The type without its qualifiers, and without the names of enums and structs.
mutual
  pub erase : CType → CType
  erase (void q) = void 0
  erase (fixnum q k u name) = fixnum 0 k u none
  erase (flonum q k) = flonum 0 k
  erase (ptr q t) = ptr 0 (erase t)
  erase (array q t n) = array 0 (erase t) n
  erase (func q r ps v) = func 0 (erase r) (erase_params ps) v
  erase (struct q name info) = struct 0 none info

  pub erase_params : ParamTypes → ParamTypes
  erase_params unspecified = unspecified
  erase_params (listed ts) = listed (erase_types ts)

  pub erase_types : CTypes → CTypes
  erase_types nil = nil
  erase_types (cons t ts) = cons (erase t) (erase_types ts)

abbrev is_some : Option ℕ → Bool
is_some none = false
is_some (some a) = true

-- Every struct in the type has its info: no forward declaration is left.
unfoldable mutual
  pub is_complete : CType → Bool
  is_complete (void q) = true
  is_complete (fixnum q k u name) = true
  is_complete (flonum q k) = true
  is_complete (ptr q t) = is_complete t
  is_complete (array q t n) = is_complete t
  is_complete (func q r ps v) = is_complete r && are_complete_params ps
  is_complete (struct q name info) = is_some info

  pub are_complete_params : ParamTypes → Bool
  are_complete_params unspecified = true
  are_complete_params (listed ts) = are_complete ts

  pub are_complete : CTypes → Bool
  are_complete nil = true
  are_complete (cons t ts) = is_complete t && are_complete ts

kind_eq_sound : (a b : FixnumKind) → kind_eq a b ≡ true → a ≡ b
kind_eq_sound a b h = ground arith

flonum_eq_sound : (a b : FlonumKind) → flonum_eq a b ≡ true → a ≡ b
flonum_eq_sound a b h = ground arith

bool_eq_sound : (a b : Bool) → bool_eq a b ≡ true → a ≡ b
bool_eq_sound a b h = ground arith

length_eq_sound : (a b : ℤ) → length_eq a b ≡ true → a ≡ b
length_eq_sound (pos a) (pos b) h = ground arith
length_eq_sound (negsuc a) (negsuc b) h = ground arith
length_eq_sound _ _ h = cc

same_struct_sound :
    (name name' info info' : Option ℕ)
    → is_some info ≡ true
    → is_some info' ≡ true
    → same_struct name info name' info' ≡ true
    → info ≡ info'
same_struct_sound name name' none info' c c' h = cc
same_struct_sound name name' (some a) none c c' h = cc
same_struct_sound name name' (some a) (some b) c c' h = ground arith

mutual
  unfolding same_type erase is_complete

  same-erase :
      (t t' : CType)
      → is_complete t ≡ true
      → is_complete t' ≡ true
      → same_type t t' ≡ true
      → erase t ≡ erase t'
  same-erase (void _) (void _) c c' h = refl
  same-erase (fixnum _ k u _) (fixnum _ k' u' _) c c' h =
      let (p, q) = and_true (kind_eq k k') (bool_eq u u') h in
      cc (kind_eq_sound k k' p, bool_eq_sound u u' q)
  same-erase (flonum _ k) (flonum _ k') c c' h = cc (flonum_eq_sound k k' h)
  same-erase (ptr _ t) (ptr _ t') c c' h = cc (same-erase t t' c c' h)
  same-erase (array _ t n) (array _ t' n') c c' h =
      let (p, q) = and_true (length_eq n n') (same_type t t') h in
      cc (length_eq_sound n n' p, same-erase t t' c c' q)
  same-erase (func _ r ps v) (func _ r' ps' v') c c' h =
      let (pq, s) = and_true (same_type r r' && bool_eq v v') (same_params ps ps') h in
      let (p, q) = and_true (same_type r r') (bool_eq v v') pq in
      let (cr, cp) = and_true (is_complete r) (are_complete_params ps) c in
      let (cr', cp') = and_true (is_complete r') (are_complete_params ps') c' in
      cc (same-erase r r' cr cr' p, bool_eq_sound v v' q, same-erase_params ps ps' cp cp' s)
  same-erase (struct _ name info) (struct _ name' info') c c' h =
      cc (same_struct_sound name name' info info' c c' h)
  same-erase _ _ c c' h = cc

  same-erase_params :
      (ps ps' : ParamTypes)
      → are_complete_params ps ≡ true
      → are_complete_params ps' ≡ true
      → same_params ps ps' ≡ true
      → erase_params ps ≡ erase_params ps'
  same-erase_params unspecified unspecified c c' h = refl
  same-erase_params (listed ts) (listed ts') c c' h = cc (same-erase_types ts ts' c c' h)
  same-erase_params _ _ c c' h = cc

  same-erase_types :
      (ts ts' : CTypes)
      → are_complete ts ≡ true
      → are_complete ts' ≡ true
      → same_types ts ts' ≡ true
      → erase_types ts ≡ erase_types ts'
  same-erase_types nil nil c c' h = refl
  same-erase_types (cons t ts) (cons t' ts') c c' h =
      let (p, q) = and_true (same_type t t') (same_types ts ts') h in
      let (ct, cs) = and_true (is_complete t) (are_complete ts) c in
      let (ct', cs') = and_true (is_complete t') (are_complete ts') c' in
      cc (same-erase t t' ct ct' p, same-erase_types ts ts' cs cs' q)
  same-erase_types _ _ c c' h = cc

kind_eq_refl : (a b : FixnumKind) → a ≡ b → kind_eq a b ≡ true
kind_eq_refl a b h = ground arith

flonum_eq_refl : (a b : FlonumKind) → a ≡ b → flonum_eq a b ≡ true
flonum_eq_refl a b h = ground arith

bool_eq_refl : (a b : Bool) → a ≡ b → bool_eq a b ≡ true
bool_eq_refl a b h = ground arith

length_eq_refl : (a b : ℤ) → a ≡ b → length_eq a b ≡ true
length_eq_refl a b h = ground arith

same_struct_refl :
    (name name' info info' : Option ℕ)
    → is_some info ≡ true
    → info ≡ info'
    → same_struct name info name' info' ≡ true
same_struct_refl name name' none info' c h = cc
same_struct_refl name name' (some a) none c h = cc
same_struct_refl name name' (some a) (some b) c h = ground arith

and_intro : {a b : Bool} → a ≡ true → b ≡ true → a && b ≡ true
and_intro p q = ground arith

mutual
  unfolding same_type erase is_complete

  erase-same : (t t' : CType) → is_complete t ≡ true → erase t ≡ erase t' → same_type t t' ≡ true
  erase-same (void _) (void _) c h = refl
  erase-same (fixnum _ k u _) (fixnum _ k' u' _) c h =
      and_intro (kind_eq_refl k k' (cc)) (bool_eq_refl u u' (cc))
  erase-same (flonum _ k) (flonum _ k') c h = flonum_eq_refl k k' (cc)
  erase-same (ptr _ t) (ptr _ t') c h = erase-same t t' c (cc)
  erase-same (array _ t n) (array _ t' n') c h =
      and_intro (length_eq_refl n n' (cc)) (erase-same t t' c (cc))
  erase-same (func _ r ps v) (func _ r' ps' v') c h =
      let (cr, cp) = and_true (is_complete r) (are_complete_params ps) c in
      and_intro (and_intro (erase-same r r' cr (cc)) (bool_eq_refl v v' (cc)))
        (erase-same_params ps ps' cp (cc))
  erase-same (struct _ name info) (struct _ name' info') c h =
      same_struct_refl name name' info info' c (cc)
  erase-same _ _ c h = cc

  erase-same_params :
      (ps ps' : ParamTypes)
      → are_complete_params ps ≡ true
      → erase_params ps ≡ erase_params ps'
      → same_params ps ps' ≡ true
  erase-same_params unspecified unspecified c h = refl
  erase-same_params (listed ts) (listed ts') c h = erase-same_types ts ts' c (cc)
  erase-same_params _ _ c h = cc

  erase-same_types :
      (ts ts' : CTypes)
      → are_complete ts ≡ true
      → erase_types ts ≡ erase_types ts'
      → same_types ts ts' ≡ true
  erase-same_types nil nil c h = refl
  erase-same_types (cons t ts) (cons t' ts') c h =
      let (ct, cs) = and_true (is_complete t) (are_complete ts) c in
      and_intro (erase-same t t' ct (cc)) (erase-same_types ts ts' cs (cc))
  erase-same_types _ _ c h = cc

-- On types in which every struct has its info, `same_type` decides equality up to qualifiers and
-- the names of enums and structs.
pub same_type-erase_iff :
    (t t' : CType)
    → is_complete t ≡ true
    → is_complete t' ≡ true
    → (same_type t t' ≡ true) ↔ (erase t ≡ erase t')
same_type-erase_iff t t' c c' = (same-erase t t' c c', erase-same t t' c)
