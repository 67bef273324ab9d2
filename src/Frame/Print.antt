-- ===== src/Frame/Print.antt =====
-- Entries of .debug_frame as the DWARF standard lays them out, in 32-bit form and with 8-byte
-- addresses: the reference that the parser is held to.
use godbg.Common.{ℕ, ◌+◌, ◌%◌, ◌^◌, ◌<◌, ◌≢◌, Option, none, some, List, [], ◌∷◌, ◌++◌, length, All}
use godbg.Common.Bytes.{Bytes, to_little_endian}
use godbg.Common.Int.{wrap64}
use godbg.Frame.{
  CommonInformationEntry, FrameDescriptionEntry, VirtualUnwindFrameInformation, cie_mark,
}
use godbg.Leb.Numbers.{IsLeb, uleb_value, sleb_value}

-- The three factors are LEB128 byte strings.
pub record CieLayout : Type 0 where
  pub version : ℕ
  pub augmentation : Bytes
  pub code : Bytes
  pub factor : Bytes
  pub register : Bytes
  pub instructions : Bytes

-- `mark` is the offset of the CIE, which is no CIE mark.
pub record FdeLayout : Type 0 where
  pub mark : ℕ
  pub begin : ℕ
  pub size : ℕ
  pub instructions : Bytes

pub data Layout : Type 0 where
  cie : CieLayout → Layout
  fde : FdeLayout → Layout

abbrev pub cie_body : CieLayout → Bytes
cie_body c =
    c.version ∷ (c.augmentation ++ (0 ∷ (c.code ++ (c.factor ++ (c.register ++ c.instructions)))))

abbrev pub fde_body : FdeLayout → Bytes
fde_body f = to_little_endian 8 f.begin ++ (to_little_endian 8 f.size ++ f.instructions)

-- A length, counted from behind itself, then the mark and the body.
abbrev pub print : Layout → Bytes
print (cie c) = to_little_endian 4 (4 + length (cie_body c)) ++ (cie_mark ++ cie_body c)
print (fde f) =
    to_little_endian 4 (4 + length (fde_body f)) ++ (to_little_endian 4 f.mark ++ fde_body f)

abbrev pub print_all : List Layout → Bytes
print_all [] = []
print_all (l ∷ ls) = print l ++ print_all ls

pub record IsCie (c : CieLayout) : Type 0 where
  pub text : All (λ b. b ≢ 0) c.augmentation
  pub code_IsLeb : IsLeb c.code
  pub factor_IsLeb : IsLeb c.factor
  pub register_IsLeb : IsLeb c.register
  pub fits : 4 + length (cie_body c) < 2 ^ 32

pub record IsFde (f : FdeLayout) : Type 0 where
  pub mark_lt : f.mark < 2 ^ 32
  pub no_cie_mark : f.mark ≢ 0xffffffff
  pub begin_lt : f.begin < 2 ^ 64
  pub size_lt : f.size < 2 ^ 64
  pub fits : 4 + length (fde_body f) < 2 ^ 32

abbrev pub IsEntry : Layout → Type 0
IsEntry (cie c) = IsCie c
IsEntry (fde f) = IsFde f

-- What an entry stands for.
abbrev pub cie_of : CieLayout → CommonInformationEntry
cie_of c = record {
  length = length (cie_body c);
  cie_id = 0xffffffff;
  version = c.version;
  augmentation = c.augmentation ++ (0 ∷ []);
  code_alignment_factor = uleb_value c.code % 2 ^ 64;
  data_alignment_factor = wrap64 (sleb_value c.factor);
  return_address_register = uleb_value c.register % 2 ^ 64;
  initial_instructions = c.instructions;
}

abbrev pub fde_of : Option CommonInformationEntry → FdeLayout → FrameDescriptionEntry
fde_of owner f = record {
  length = length (fde_body f);
  cie = owner;
  instructions = f.instructions;
  begin = f.begin;
  size = f.size;
}

abbrev pub info_of : Option CommonInformationEntry → Layout → VirtualUnwindFrameInformation
info_of owner (cie c) = record { len = length (cie_body c); cie = some (cie_of c); fde = none }
info_of owner (fde f) = record {
  len = length (fde_body f);
  cie = none;
  fde = some (fde_of owner f);
}

-- In a section each FDE belongs to the nearest CIE before it.
abbrev pub infos_of :
    Option CommonInformationEntry → List Layout → List VirtualUnwindFrameInformation
infos_of owner [] = []
infos_of owner (cie c ∷ ls) = info_of owner (cie c) ∷ infos_of (some (cie_of c)) ls
infos_of owner (fde f ∷ ls) = info_of owner (fde f) ∷ infos_of owner ls
