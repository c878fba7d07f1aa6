-- ===== src/GsCache/TarLayout.antt =====
-- The layout of a tar archive, and what list_tar_members of gs_cache/tarfile_utils.py finds in its
-- listing.
use cros_dev_util.Base.{
  ℕ, ◌+◌, ◌*◌, ◌/◌, String, none, some, List, [], ◌∷◌, ◌≡◌, refl, ap, arith, pos, ok, int_of,
}
use cros_dev_util.GsCache.TarList.{
  TarListCommandResult, TarMemberInfo, command_result, record_start_of, size_of,
  get_prev_content_start, round_up_to_512, block_to_bytes, member_before, members_behind,
  list_tar_members, yield_then, minus,
}

-- A member: its header takes some blocks of 512 bytes, and its content is padded to whole blocks.
pub record Entry : Type 0 where
  pub name : String
  pub header : ℕ
  pub size : ℕ

abbrev pub content_blocks : Entry → ℕ
content_blocks e = (e.size + 511) / 512

-- The members from a block on.
abbrev pub layout : ℕ → List Entry → List TarMemberInfo
layout block [] = []
layout block (e ∷ entries) =
    record {
      filename = e.name;
      record_start = pos (block * 512);
      record_size = pos ((e.header + content_blocks e) * 512);
      content_start = pos ((block + e.header) * 512);
      size = pos e.size;
    }
    ∷ layout (block + e.header + content_blocks e) entries

-- The line says the block, the size and the name.
pub record Reads (file : TarListCommandResult) (block : ℕ) (e : Entry) : Type 0 where
  pub block_read : int_of file.block_num ≡ some (pos block)
  pub size_read : int_of file.size_str ≡ some (pos e.size)
  pub name_read : file.filename ≡ e.name

-- A listing has a line for each member and one for the block behind them.
abbrev pub IsListing : ℕ → List Entry → List String → Type 0
IsListing block [] [] = ⊥
IsListing block [] (line ∷ []) = int_of (command_result line).block_num ≡ some (pos block)
IsListing block [] (line ∷ _ ∷ _) = ⊥
IsListing block (e ∷ entries) [] = ⊥
IsListing block (e ∷ entries) (line ∷ lines) =
    Reads (command_result line) block e
    × IsListing (block + e.header + content_blocks e) entries lines

minus_of_le : (m n k : ℕ) → m ≡ n + k → minus m n ≡ pos k
minus_of_le m n k e = ground (arith, e)

member_before-Reads :
    (file next : TarListCommandResult) (block : ℕ) (e : Entry)
    → Reads file block e
    → int_of next.block_num ≡ some (pos (block + e.header + content_blocks e))
    → member_before file next
      ≡ ok (record {
        filename = e.name;
        record_start = pos (block * 512);
        record_size = pos ((e.header + content_blocks e) * 512);
        content_start = pos ((block + e.header) * 512);
        size = pos e.size;
      })
unfolding member_before record_start_of get_prev_content_start size_of round_up_to_512
    block_to_bytes
member_before-Reads file next block e reads behind =
    let content = content_blocks e in
    let next_block = block + e.header + content in
    let record_size =
      minus_of_le (next_block * 512) (block * 512) ((e.header + content) * 512) (omega arith) in
    let content_start =
      minus_of_le (next_block * 512) (content * 512) ((block + e.header) * 512) (omega arith) in
    rw (behind, reads.size_read, reads.block_read, reads.name_read, record_size, content_start) refl

members_behind-layout :
    (block : ℕ) (e : Entry) (entries : List Entry) (file : TarListCommandResult)
    (lines : List String)
    → Reads file block e
    → IsListing (block + e.header + content_blocks e) entries lines
    → members_behind file lines ≡ (layout block (e ∷ entries), none)
unfolding members_behind
members_behind-layout block e [] file [] reads listing = absurd listing
members_behind-layout block e [] file (line ∷ []) reads listing =
    ap (λ member. yield_then member ([], none))
      (member_before-Reads file (command_result line) block e reads listing)
members_behind-layout block e [] file (line ∷ _ ∷ _) reads listing = absurd listing
members_behind-layout block e (e' ∷ entries) file [] reads listing = absurd listing
members_behind-layout block e (e' ∷ entries) file (line ∷ lines) reads (reads', listing) =
    let next = block + e.header + content_blocks e in
    rw
      (
        member_before-Reads file (command_result line) block e reads reads'.block_read,
        members_behind-layout next e' entries (command_result line) lines reads' listing,
      )
      refl

-- From the listing of an archive, whatever its members, list_tar_members yields every member in
-- order with the place and the length of its record, the place of its content and its size, and
-- raises nothing.
pub list_tar_members-layout :
    (entries : List Entry) (lines : List String)
    → IsListing 0 entries lines
    → list_tar_members lines ≡ (layout 0 entries, none)
unfolding list_tar_members members_behind
list_tar_members-layout [] (line ∷ []) listing = refl
list_tar_members-layout [] [] listing = refl
list_tar_members-layout [] (line ∷ _ ∷ _) listing = absurd listing
list_tar_members-layout (e ∷ entries) [] listing = absurd listing
list_tar_members-layout (e ∷ entries) (line ∷ lines) (reads, listing) =
    members_behind-layout 0 e entries (command_result line) lines reads listing
