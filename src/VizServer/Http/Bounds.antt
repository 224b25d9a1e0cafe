-- ===== src/VizServer/Http/Bounds.antt =====
-- The size of a reply: at most 2000 frames.
use Prim.Native.String.{String}
use text.Mathlib.Text.{◌==◌ as str_eq, starts_with}
use maze_client.Prelude.{
  ℕ, zero, suc, ◌≤◌, Bool, true, false, if◌then◌else◌, Option, none, some, Option-cases, List,
  length, arith, inl, inr,
}
use maze_client.Prelude.Int.{ℤ, pos, negsuc, ◌+ℤ◌, ◌-ℤ◌, to_ℕ, min_ℤ}
use maze_client.VizServer.Disk.{
  Disk, Server, Error, Line, blank, invalid, unreadable, frame, Item, index_at,
}
use maze_client.VizServer.Queries.{
  add_line, read_frames, finish_page, page_of, validate_filename, load_frames_paged, list_files,
  get_file_status, get_frame_count, load_map,
}
use maze_client.VizServer.Http.{
  Request, Reply, raised, server_status, files, no_parameter, frames, frame_count, file_status,
  map_data, window_of, frames_reply, reply_of, list_reply, get_frames, get_count, get_status,
  get_map, get_files, get_service, do_get, is_one_of, is_missing, number_of, text_of,
}

-- At most `n` frames, if any.
abbrev pub AtMost : {F : Type 0} → ℕ → Option (List F) → Type 0
AtMost n none = Unit {0}
AtMost n (some fs) = length fs ≤ n

AtMost-le : {F : Type 0} (m n : ℕ) (o : Option (List F)) → m ≤ n → AtMost m o → AtMost n o
AtMost-le m n none h a = tt
AtMost-le m n (some fs) h a = omega arith

add_line-AtMost :
    {F : Type 0} (n : ℕ) (l : Line F) (o : Option (List F))
    → AtMost n o
    → AtMost (suc n) (add_line l o)
unfolding add_line
add_line-AtMost n unreadable o a = tt
add_line-AtMost n blank o a = AtMost-le n (suc n) o (omega arith) a
add_line-AtMost n invalid o a = AtMost-le n (suc n) o (omega arith) a
add_line-AtMost n (frame f) none a = tt
add_line-AtMost n (frame f) (some fs) a = omega arith

-- A window of `limit` indices, cut off at the end of the file, holds at most `limit`.
window_le : (o l : ℤ) (t : ℕ) → to_ℕ (min_ℤ (o +ℤ l) (pos t) -ℤ o) ≤ to_ℕ l
window_le (pos o) (pos l) t = ground arith
window_le (pos o) (negsuc l) t = ground arith
window_le (negsuc o) (pos l) t = ground arith
window_le (negsuc o) (negsuc l) t = ground arith

cap_le : (l : ℤ) → to_ℕ (min_ℤ l (pos 2000)) ≤ 2000
cap_le (pos l) = ground arith
cap_le (negsuc l) = ground arith

window_of-le : (offset limit : Option ℤ) → to_ℕ (window_of offset limit).1 ≤ 2000
unfolding window_of
window_of-le (some o) (some l) = cap_le l
window_of-le (some o) none = omega arith
window_of-le none l = omega arith

module _ {F M : Type 0} (disk : Disk F M) (filename : String) where
  read_frames-AtMost :
      (xs : List ℕ) (left : ℕ) (i : ℤ) → AtMost left (read_frames disk filename xs left i)
  unfolding read_frames
  read_frames-AtMost xs zero i = omega arith
  read_frames-AtMost xs (suc left) i =
      next (index_at xs i) _ (read_frames-AtMost xs left (i +ℤ pos 1))
    where
      next :
          (o : Option ℕ) (rest : Option (List F))
          → AtMost left rest
          → AtMost
              (suc left)
              (elim o [ none ↦ none | some at ↦ add_line (disk.line_at filename at) rest ])
      next none rest a = tt
      next (some at) rest a = add_line-AtMost left (disk.line_at filename at) rest a

  finish_page-AtMost :
      (n total : ℕ) (past : Bool) (o : Option (List F))
      → AtMost n o
      → AtMost n (finish_page total past o).frames
  unfolding finish_page
  finish_page-AtMost n total true o a = omega arith
  finish_page-AtMost n total false none a = tt
  finish_page-AtMost n total false (some fs) a = a

  opened-AtMost :
      (n : ℕ) (b : Bool) (o : Option (List F)) → AtMost n o → AtMost n (if b then o else none)
  opened-AtMost n true o a = a
  opened-AtMost n false o a = tt

  page_of-AtMost :
      (xs : List ℕ) (o l : ℤ) (n : ℕ) → to_ℕ l ≤ n → AtMost n (page_of disk filename xs o l).frames
  unfolding page_of
  page_of-AtMost xs o l n h = finish_page-AtMost n (length xs) _ _ (
      opened-AtMost n (disk.opens filename) _
        (AtMost-le _ n _ (le_trans (window_le o l (length xs)) h) (read_frames-AtMost xs _ o)))
    where
      le_trans : {a b c : ℕ} → a ≤ b → b ≤ c → a ≤ c
      le_trans p q = omega arith

  load_frames_paged-AtMost :
      (o l : ℤ) (n : ℕ) (s : Server M)
      → to_ℕ l ≤ n
      → AtMost n (load_frames_paged disk filename o l s).0.frames
  unfolding load_frames_paged
  load_frames_paged-AtMost o l n s h = elim (Option-cases (validate_filename disk filename)) [
    | inl valid ↦ rw (load_frames_paged, valid) (page_of-AtMost _ o l n h)
    | inr (e, bad) ↦ rw (load_frames_paged, bad) tt
  ]

-- No more than 2000 frames are sent.
abbrev pub IsBounded : {F M : Type 0} → Reply F M → Type 0
IsBounded (frames total offset limit sent) = length sent ≤ 2000
IsBounded _ = Unit {0}

module _ (F M : Type 0) where
  frames_reply-IsBounded :
      (o l : ℤ) (total : ℕ) (fs : Option (List F)) (e : Option Error)
      → AtMost 2000 fs
      → IsBounded (frames_reply {F = F} {M = M} o l total fs e)
  unfolding frames_reply
  frames_reply-IsBounded o l total fs (some e) a = tt
  frames_reply-IsBounded o l total none none a = tt
  frames_reply-IsBounded o l total (some fs) none a = a

  reply_of-IsBounded :
      {A : Type 0} (send : A → Reply F M)
      → ((a : A) → IsBounded (send a))
      → (r : Option A × Option Error × Server M) → IsBounded (reply_of send r).0
  unfolding reply_of
  reply_of-IsBounded send h (o, some e, s) = tt
  reply_of-IsBounded send h (none, none, s) = tt
  reply_of-IsBounded send h (some a, none, s) = h a

  list_reply-IsBounded :
      (send : List Item → Reply F M)
      → ((items : List Item) → IsBounded (send items))
      → (s : Server M) (o : Option (List Item × Server M)) → IsBounded (list_reply send s o).0
  unfolding list_reply
  list_reply-IsBounded send h s none = tt
  list_reply-IsBounded send h s (some (items, s')) = h items

  -- Every answer of a conditional is bounded if both are.
  if-IsBounded :
      (b : Bool) (x y : Reply F M × Server M)
      → IsBounded x.0
      → IsBounded y.0
      → IsBounded (if b then x else y).0
  if-IsBounded true x y h k = h
  if-IsBounded false x y h k = k

module _ {F M : Type 0} (int : String → Option ℤ) (disk : Disk F M) (q : Request)
    (s : Server M) where
  get_frames-IsBounded : IsBounded (get_frames int disk q s).0
  unfolding get_frames
  get_frames-IsBounded =
      let offset = number_of int disk q.offset "0" in
      let limit = number_of int disk q.limit "200" in
      let window = window_of offset limit in
      let p = (load_frames_paged disk (text_of q.file) window.0 window.1 s).0 in
      if-IsBounded F M (is_missing q.file) (no_parameter, s) _ tt
        (frames_reply-IsBounded F M window.0 window.1 p.total p.frames p.error (
          load_frames_paged-AtMost disk (text_of q.file) window.0 window.1 2000 s
            (window_of-le offset limit)))

  get_count-IsBounded : IsBounded (get_count int disk q s).0
  unfolding get_count
  get_count-IsBounded =
      if-IsBounded F M (is_missing q.file) (no_parameter, s) _ tt
        (reply_of-IsBounded F M frame_count (λ a. tt) (get_frame_count disk (text_of q.file) s))

  get_status-IsBounded : (now : ℕ) → IsBounded (get_status int disk now q s).0
  unfolding get_status
  get_status-IsBounded now =
      if-IsBounded F M (is_missing q.file) (no_parameter, s) _ tt
        (reply_of-IsBounded F M file_status (λ a. tt) (get_file_status disk (text_of q.file) now s))

  get_map-IsBounded : IsBounded (get_map int disk q s).0
  unfolding get_map
  get_map-IsBounded =
      if-IsBounded F M (is_missing q.id) (no_parameter, s) _ tt
        (reply_of-IsBounded F M map_data (λ a. tt) (load_map disk (text_of q.id) s))

  get_files-IsBounded : (now : ℕ) (named : Bool) → IsBounded (get_files int disk now named s).0
  unfolding get_files
  get_files-IsBounded now named =
      list_reply-IsBounded F M (files named) (λ items. tt) s (list_files disk now s)

  get_service-IsBounded : (now : ℕ) → IsBounded (get_service int disk now s).0
  unfolding get_service
  get_service-IsBounded now =
      list_reply-IsBounded F M (λ items. if disk.manifest_is_object then server_status else raised)
        (λ items. status_or_raised disk.manifest_is_object) s (list_files disk now s)
    where
      status_or_raised :
          (b : Bool) → IsBounded {F = F} {M = M} (if b then server_status else raised)
      status_or_raised true = tt
      status_or_raised false = tt

-- Whatever a request asks for, and whatever the files hold, the reply has at most 2000 frames.
pub do_get-IsBounded :
    {F M : Type 0} (int : String → Option ℤ) (disk : Disk F M) (now : ℕ) (q : Request)
    (s : Server M)
    → IsBounded (do_get int disk now q s).0
unfolding do_get
do_get-IsBounded {F} {M} int disk now q s =
    if-IsBounded F M (is_one_of q.path "/" "/index.html") _ _ tt (
      if-IsBounded F M (starts_with q.path "/assets/") _ _ tt (
        if-IsBounded F M (is_one_of q.path "/api/files" "/api/client/files") _ _
          (get_files-IsBounded int disk q s now (str_eq q.path "/api/client/files"))
          (if-IsBounded F M (is_one_of q.path "/api/frames" "/api/client/frames") _ _
            (get_frames-IsBounded int disk q s)
            (if-IsBounded F M (str_eq q.path "/api/frame_count") _ _
              (get_count-IsBounded int disk q s)
              (if-IsBounded F M (str_eq q.path "/api/file_status") _ _
                (get_status-IsBounded int disk q s now)
                (if-IsBounded F M (is_one_of q.path "/api/map" "/api/client/map") _ _
                  (get_map-IsBounded int disk q s)
                  (if-IsBounded F M (is_one_of q.path "/api/status" "/api/client/status") _ _
                    (get_service-IsBounded int disk q s now) tt)))))))
