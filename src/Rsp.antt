-- ===== src/Rsp.antt =====
-- The dispatch of RSP tasks in src/main/main.cpp, and the hook that prepares the audio microcode
-- (src/main/rsp_aspmain_hook.cpp). The recompiled microcodes and librecomp's DMA are parameters.
use pocket_monsters_stadium.Prelude.{
  ℕ, zero, suc, ◌+◌, ◌-◌, ◌/◌, ◌%◌, ◌^◌, Bool, true, ◌||◌, List, [], ◌∷◌, Option, none, some, ltb,
  ◌==◌, if◌then◌else◌,
}
use pocket_monsters_stadium.Memory.{Rdram, physical, swizzle, bytes_from, big_endian}
use pocket_monsters_stadium.Diagnostics.Names.{TaskTypes}

-- The fields of OSTask that are read.
pub record Task : Type 0 where
  pub type : ℕ
  pub ucode_boot : ℕ
  pub ucode : ℕ
  pub ucode_data : ℕ
  pub data_ptr : ℕ
  pub data_size : ℕ

-- The word at a physical address, with no test of the range.
unfoldable pub word_at : Rdram → ℕ → ℕ
word_at rdram pa = big_endian 0 (bytes_from rdram pa 4)

-- `none` is `false`.
unfoldable pub rdram_be_word : Option Rdram → ℕ → Option ℕ
unfolding word_at
rdram_be_word none vaddr = none
rdram_be_word (some rdram) vaddr =
    if ltb (0x800000 - 4) (physical vaddr) then none else some (word_at rdram (physical vaddr))

abbrev pub push : Option ℕ → Option (List ℕ) → Option (List ℕ)
push none o = none
push (some w) none = none
push (some w) (some ws) = some (w ∷ ws)

-- The words from `vaddr` on, `none` if one of them is not in RDRAM.
unfoldable pub rsp_words : Option Rdram → ℕ → ℕ → Option (List ℕ)
unfolding rdram_be_word
rsp_words rdram vaddr zero = some []
rsp_words rdram vaddr (suc n) =
    push (rdram_be_word rdram (vaddr % 2 ^ 32)) (rsp_words rdram (vaddr + 4) n)

abbrev pub log_rsp_words : Option Rdram → ℕ → Option (List ℕ)
log_rsp_words rdram vaddr = rsp_words rdram vaddr 4

-- aspMain, the wrapper of njpgdspMain, or a null pointer.
pub data Ucode : Type 0 where
  asp_main njpeg_wrapper no_ucode : Ucode

-- What the wrapper prints of its first six runs: the two words of the output before and after, and what
-- is left in DMEM.
pub record NjpegRun : Type 0 where
  pub before : ℕ × ℕ
  pub after : ℕ × ℕ
  pub dmem_left : ℕ × Option ℕ

-- What a dispatch prints.
pub data Log : Type 0 where
  first_audio : Log
  njpeg_task : ℕ → List ℕ → Log
  unknown_task : ℕ → List (Option (List ℕ)) → Log

-- The static flags and counters, and g_njpeg_out.
pub record Dispatch : Type 0 where
  pub warned : Bool
  pub audio_seen : Bool
  pub njpeg_tasks : ℕ
  pub njpeg_out : ℕ

unfoldable pub task_words : Rdram → ℕ → ℕ → List ℕ
unfolding word_at
task_words rdram base zero = []
task_words rdram base (suc n) = word_at rdram base ∷ task_words rdram (base + 4) n

unfoldable pub get_rsp_microcode : TaskTypes → Rdram → Task → Dispatch → Dispatch × Ucode × List Log
unfolding word_at task_words rsp_words
get_rsp_microcode types rdram t d =
    let base = physical t.data_ptr in
    let signature =
      log_rsp_words (some rdram) t.ucode_boot
      ∷ log_rsp_words (some rdram) t.ucode
      ∷ log_rsp_words (some rdram) t.ucode_data
      ∷ log_rsp_words (some rdram) t.data_ptr
      ∷ [] in
    if t.type == types.aud
    then (record d { audio_seen = true }, asp_main, if d.audio_seen then [] else first_audio ∷ [])
    else if t.type == types.njpeg
    then (
      record d { njpeg_out = word_at rdram base; njpeg_tasks = (d.njpeg_tasks + 1) % 2 ^ 32 },
      njpeg_wrapper,
      if ltb d.njpeg_tasks 6 then njpeg_task d.njpeg_tasks (task_words rdram base 8) ∷ [] else [],
    )
    else (
      record d { warned = true },
      no_ucode,
      if d.warned then [] else unknown_task t.type signature ∷ [],
    )

abbrev pub first_found : Option ℕ → ℕ → Option ℕ
first_found none i = some i
first_found (some j) i = some j

-- How many bytes of DMEM are not zero, and the first of them, over `n` bytes from `i` on.
unfoldable pub dmem_scan : (ℕ → ℕ) → ℕ → ℕ → ℕ × Option ℕ → ℕ × Option ℕ
dmem_scan dmem i zero acc = acc
dmem_scan dmem i (suc n) (nz, first) =
    dmem_scan dmem (i + 1) n (if dmem i == 0 then (nz, first) else (nz + 1, first_found first i))

abbrev pub two_words : Rdram → ℕ → ℕ × ℕ
two_words rdram out = (word_at rdram (physical out), word_at rdram (physical ((out + 4) % 2 ^ 32)))

-- `njpgdsp` is the recompiled microcode on RDRAM and DMEM, `c` the number of runs before this one.
unfoldable pub run_njpeg :
    (Rdram → (ℕ → ℕ) → Rdram × (ℕ → ℕ))
    → ℕ
    → ℕ
    → Rdram
    → (ℕ → ℕ)
    → (Rdram × (ℕ → ℕ)) × Option NjpegRun
unfolding word_at dmem_scan
run_njpeg njpgdsp out c rdram dmem =
    let after = njpgdsp rdram dmem in
    (
      after,
      if ltb c 6
          then some (record {
            before = two_words rdram out;
            after = two_words after.0 out;
            dmem_left = dmem_scan after.1 0 0x1000 (0, none);
          })
          else none,
    )

-- RspContext, as far as the hook writes it.
pub record RspContext : Type 0 where
  pub r3 : ℕ
  pub r27 : ℕ
  pub r28 : ℕ
  pub r29 : ℕ
  pub r30 : ℕ
  pub r31 : ℕ
  pub dma_mem_address : ℕ
  pub dma_dram_address : ℕ

-- kAudioChunkSize and kAudioCommandsDmemOffset
abbrev pub audio_chunk_size : ℕ
audio_chunk_size = 0x140

abbrev pub commands_offset : ℕ
commands_offset = 0x2B0

-- DMEM is mirrored within words as RDRAM is.
unfoldable pub load_dmem_word : (ℕ → ℕ) → ℕ → ℕ
load_dmem_word dmem off = big_endian 0 (bytes_from dmem off 4)

unfoldable pub load_rdram_byte : Rdram → ℕ → ℕ
load_rdram_byte rdram vaddr = rdram (swizzle (vaddr % 2 ^ 23))

-- dma_rdram_to_dmem_external, of librecomp: memory, the DMEM offset, the source and the length less one.
abbrev pub Dma : Type 0
Dma = Rdram → (ℕ → ℕ) → ℕ → ℕ → ℕ → ℕ → ℕ

-- The opcodes that PMS_ASPMAIN_DEBUG prints.
unfoldable pub ops : Rdram → ℕ → ℕ → List ℕ
unfolding load_rdram_byte
ops rdram data_ptr zero = []
ops rdram data_ptr (suc n) = load_rdram_byte rdram (data_ptr % 2 ^ 32) ∷ ops rdram (data_ptr + 8) n

abbrev pub chunk_of : ℕ → ℕ
chunk_of size = if ltb audio_chunk_size size then audio_chunk_size else size

-- The new DMEM, the new context, and what is printed.
unfoldable pub aspmain_pre_task :
    Dma → Bool → Rdram → (ℕ → ℕ) → RspContext → (ℕ → ℕ) × RspContext × List ℕ
unfolding load_dmem_word ops
aspmain_pre_task dma debug rdram dmem ctx =
    let data_ptr = load_dmem_word dmem (0xFC0 + 0x30) in
    let data_size = load_dmem_word dmem (0xFC0 + 0x34) in
    let chunk = chunk_of data_size in
    if data_ptr == 0 || data_size == 0 then (dmem, ctx, []) else (
      dma rdram dmem commands_offset data_ptr (chunk - 1),
      record {
        r3 = chunk - 1;
        r27 = data_size;
        r28 = data_ptr;
        r29 = commands_offset;
        r30 = chunk;
        r31 = 0x1144;
        dma_mem_address = commands_offset;
        dma_dram_address = (data_ptr + chunk) % 2 ^ 32;
      },
      if debug then ops rdram data_ptr (if ltb 320 data_size then 40 else data_size / 8) else [],
    )
