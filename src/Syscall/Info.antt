-- ===== src/Syscall/Info.antt =====
-- sys_getpid, sys_file_info, sys_dir_info, sys_dirent_info, sys_symlink_info, sys_pwd, sys_cd and
-- path_helper of kernel/src/syscall.c. None of the four info calls looks at the descriptor's status.
use foxtail.Common.{
  ℕ, zero, suc, ◌+◌, ◌-◌, ◌%◌, Option, none, some, List, [], ◌∷◌, Mem, store, Outcome, ok, spin,
  ◌>>=◌, leb, ltb, not, length, if◌then◌else◌,
}
use foxtail.KString.{list_eq}
use foxtail.Fs.Defs.{Fs, Inode, file, directory, symlink, same_type, inode_at, slot_at, FileType}
use foxtail.Fs.Paths.{get_inode_by_path, root_path}
use foxtail.Kernel.{
  Kernel, Regs, Reply, fail, get_current_proc, set_current_proc, fd_at, file_of, cwd_of,
  is_valid_user_addr, user_string, write_string, write_u32, read_u32, max_fds, minus_one,
}

pub sys_getpid : Regs → Kernel → Reply
sys_getpid s k = get_current_proc k >>= λ p. ok (p.pid, k)

-- What the info calls do first: the descriptor's inode must be of one type, and the buffer in user
-- memory. `found` is `none` for the error.
pub info_inode : Regs → Kernel → FileType → Outcome (Option Inode)
info_inode s k kind =
    if leb max_fds s.ebx
    then ok none
    else get_current_proc k >>= λ p. fd_at p s.ebx >>= λ d. file_of d.target >>= λ i.
        inode_at k.fs i >>= λ inode.
        if not (same_type inode.file_type kind)
        then ok none
        else if not (is_valid_user_addr s.ecx)
        then ok none
        else ok (some inode)

-- `info->size = …file_data.size` and `info->num_entries = …directory_data.num_entries`.
pub write_word0 : Regs → Kernel → Option Inode → Reply
write_word0 s k none = fail k
write_word0 s k (some inode) = ok (0, record k { user = write_u32 k.user s.ecx inode.word0 })

pub sys_file_info : Regs → Kernel → Reply
unfolding info_inode write_word0
sys_file_info s k = info_inode s k file >>= λ found. write_word0 s k found

pub sys_dir_info : Regs → Kernel → Reply
unfolding info_inode write_word0
sys_dir_info s k = info_inode s k directory >>= λ found. write_word0 s k found

-- The entry at `info->offset`, whose name goes behind the offset; the bound lets `num_entries` pass.
write_dirent : Regs → Kernel → Option Inode → Reply
write_dirent s k none = fail k
write_dirent s k (some dir) =
    let offset = read_u32 k.user s.ecx in
    if ltb dir.word0 offset
    then fail k
    else slot_at dir offset >>= λ idx. inode_at k.fs idx >>= λ entry. ok (
      0,
      record k {
        user =
            write_u32 (write_string k.user (s.ecx + 4) entry.name) s.ecx
              ((offset + 1) % 4294967296);
      },
    )

pub sys_dirent_info : Regs → Kernel → Reply
unfolding info_inode write_dirent
sys_dirent_info s k = info_inode s k directory >>= λ found. write_dirent s k found

-- The first loop of `path_helper`: the length of the path with its NUL.
pub path_len : ℕ → Fs → Inode → ℕ → Outcome ℕ
path_len zero fs curr len = spin
path_len (suc fuel) fs curr len =
    let next = inode_at fs curr.parent >>= λ parent.
    path_len fuel fs parent (len + (length curr.name + 1)) in
    if list_eq curr.name root_path then ok (len + (length curr.name + 1)) else next

-- `memcpy(buf, s, strlen(s))`
abbrev pub write_bytes : Mem → ℕ → List ℕ → Mem
write_bytes m p [] = m
write_bytes m p (c ∷ s) = write_bytes (store m p c) (p + 1) s

-- The second loop, from the back. `len` is the first loop's sum, so no subtraction goes below 0.
pub path_copy : ℕ → Fs → Inode → ℕ → ℕ → Mem → Outcome Mem
path_copy zero fs curr buf len m = spin
path_copy (suc fuel) fs curr buf len m =
    let at = len - length curr.name in
    let m' = store (write_bytes m (buf + at) curr.name) (buf + (at - 1)) b'/' in
    let next = inode_at fs curr.parent >>= λ parent. path_copy fuel fs parent buf (at - 1) m' in
    if list_eq curr.name root_path then ok (write_bytes m buf curr.name) else next

-- The fuel bounds the depth of the inode below the root.
pub path_helper : ℕ → Fs → ℕ → ℕ → ℕ → Mem → Outcome (ℕ × Mem)
unfolding path_len path_copy list_eq
path_helper fuel fs idx buf buf_len m = inode_at fs idx >>= λ inode.
    path_len fuel fs inode 0 >>= λ len.
    if ltb buf_len len
    then ok (minus_one, m)
    else (path_copy fuel fs inode buf (len - 1) (store m (buf + (len - 1)) 0) >>= λ m'. ok (0, m'))

-- The table has 256 inodes, so a path to the root that does not repeat one is shorter than this.
abbrev pub path_fuel : ℕ
path_fuel = 257

pub sys_pwd : Regs → Kernel → Reply
unfolding path_helper
sys_pwd s k =
    if not (is_valid_user_addr s.ebx)
    then fail k
    else get_current_proc k >>= λ p. cwd_of p >>= λ cwd.
        path_helper path_fuel k.fs cwd s.ebx s.ecx k.user >>= λ r. ok (r.0, record k { user = r.1 })

write_link : Regs → Kernel → Option Inode → Reply
unfolding path_helper
write_link s k none = fail k
write_link s k (some link) = inode_at k.fs link.word0 >>= λ target.
    path_helper path_fuel k.fs link.word0 s.ecx s.edx k.user >>= λ r.
    ok (r.0, record k { user = r.1 })

pub sys_symlink_info : Regs → Kernel → Reply
unfolding info_inode write_link
sys_symlink_info s k = info_inode s k symlink >>= λ found. write_link s k found

pub sys_cd : Regs → Kernel → Reply
sys_cd s k =
    if not (is_valid_user_addr s.ebx)
    then fail k
    else get_current_proc k >>= λ p. cwd_of p >>= λ cwd.
        get_inode_by_path k.fs cwd (user_string k.user s.ebx) >>= λ found. elim found [
          | none ↦ fail k
          | some new_cwd ↦ ok (0, set_current_proc k (record p { cwd = some new_cwd }))
        ]
