-- ===== src/Filesystem/Sample.antt =====
-- A disk of eight blocks of sixteen bytes with one file: block 1, and blocks 3 and 4 by way of block 2.
use tp_so_tuki.Common.{ℕ, ◌+◌, ◌-◌, List, [], ◌∷◌, none, some, ltb, ℤ, pos, negsuc, if◌then◌else◌}
use tp_so_tuki.OpCode.{codes, str_eq}
use tp_so_tuki.Filesystem.Blocks.{set_bf_ip}
use tp_so_tuki.Filesystem.Disk.{Fcb, Disk}

-- Numbers of one digit, or of two.
abbrev pub itoa : ℤ → List ℕ
itoa (pos n) = if ltb n 10 then (48 + n) ∷ [] else (48 + 1) ∷ (48 + (n - 10)) ∷ []
itoa (negsuc n) = codes "-1"

abbrev pub fcb : Fcb
fcb = record {
  nombre_archivo = codes "a";
  tamanio_archivo = codes "48";
  puntero_directo = codes "1";
  puntero_indirecto = codes "2";
}

abbrev pub disk : Disk
disk = record {
  block_size = 16;
  block_count = 8;
  bitmap = λ b. ltb b 5;
  block_file = set_bf_ip 16 (λ x. 0) 2 (3 ∷ 4 ∷ []);
  files = λ name. if str_eq name (codes "a") then some fcb else none;
}

abbrev pub pointer_list : List ℤ
pointer_list = pos 1 ∷ pos 3 ∷ pos 4 ∷ []
