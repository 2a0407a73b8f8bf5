-- ===== src/Tests/BlockTests.antt =====
-- block_exper/block_vs_file.c at concrete sizes and letters.
use mm_exper.Base.{◌+◌, ◌-◌, ◌/◌, ◌%◌, ◌^◌, ◌≡◌, ◌≢◌, refl, arith, some, List, [], ◌∷◌}
use mm_exper.BlockVsFile.{
  Write, to_file, to_dev, next_char, letter_writes, num_blocks, size_in_pages, round_down,
  get_block_nums,
}
use mm_exper.BlockVsFile.Letters.{IsLetter, Show, letter_writes-Show}
use mm_exper.BlockVsFile.Sizes.{num_blocks_lem}

letter_writes-Show_example :
    (ws : List Write) × (letter_writes 2 b'q' b'r' ≡ some (to_file (next_char b'q') ∷ ws))
    × IsLetter (next_char b'q')
    × (next_char b'q' ≢ b'q')
    × Show (next_char b'q') b'r' ws
letter_writes-Show_example = letter_writes-Show b'q' b'r'

-- The device shows what was written to the file.
shared :
    letter_writes 2 b'q' b'r'
    ≡ some (to_file b'r' ∷ to_dev b's' ∷ to_dev b't' ∷ to_file b's' ∷ to_dev b'u' ∷ [])
unfolding letter_writes
shared = refl

-- A file of 4 GiB and 8 KiB has two blocks, it seems, but all its pages.
num_blocks_lem_example :
    num_blocks 0x100002000 (2 ^ 12) ≡ (0x100002000 + 2 ^ 12 - 1) / 2 ^ 12 % 2 ^ (32 - 12)
num_blocks_lem_example = num_blocks_lem 0x100002000 12 (omega arith)

two_blocks : num_blocks 0x100002000 4096 ≡ 2
unfolding num_blocks
two_blocks = refl

all_pages : size_in_pages 0x100002000 4096 ≡ 0x100002
unfolding size_in_pages
all_pages = refl

rounded : round_down 0x12345 4096 ≡ 0x12000
unfolding round_down
rounded = refl

-- The numbers that are asked for are those of sectors, not of blocks.
sectors : get_block_nums (λ n. some (n + 100)) 8 3 0 ≡ some (100 ∷ 108 ∷ 116 ∷ [])
unfolding get_block_nums
sectors = refl
