-- ===== src/Frame/Section.antt =====
-- The loop of `ParseFrameSection` on a whole section.
use godbg.Common.{
  ℕ, zero, suc, ◌<◌, ◌≤◌, ◌≡◌, ◌≢◌, ap, ◌∙◌, arith, Option, none, some, List, [], ◌∷◌, ◌++◌, length,
  length-append, length-drop, All, Option-cases, inl, inr, if◌then◌else◌,
}
use godbg.Common.Bytes.{Bytes}
use godbg.Common.Result.{Result, ok, err, panic, is_eof}
use godbg.Frame.{
  CommonInformationEntry, VirtualUnwindFrameInformation, parse_frame_information, link, latest,
  frames_loop, parse_frames,
}
use godbg.Frame.Parse.{parse_frame_information-print}
use godbg.Frame.Print.{Layout, cie, fde, print, print_all, IsEntry, info_of, infos_of, cie_of}
use mathlib.Core.List.{append-nil, append_assoc}

-- A round on a non-empty buffer leaves less of it.
parse_frame_information-shorter :
    (b : ℕ) (bs : Bytes) → length (parse_frame_information (b ∷ bs)).1 ≤ length bs
unfolding parse_frame_information
parse_frame_information-shorter b bs = grind (arith, length-drop)

module _ (fuel : ℕ) (buffer : Bytes) (cur : Option CommonInformationEntry)
    (out : List VirtualUnwindFrameInformation) where
  frames_loop_step :
      (info : VirtualUnwindFrameInformation) (rest : Bytes)
      → parse_frame_information buffer ≡ (ok info, rest)
      → frames_loop (suc fuel) buffer cur out
        ≡ frames_loop fuel rest (latest cur info) (out ++ (link (latest cur info) info ∷ []))
  unfolding frames_loop
  frames_loop_step info rest e = ground (arith, e)

  frames_loop_ends :
      ((info : VirtualUnwindFrameInformation)
        → frames_loop fuel
            (parse_frame_information buffer).1
            (latest cur info)
            (out ++ (link (latest cur info) info ∷ []))
          ≢ none)
      → frames_loop (suc fuel) buffer cur out ≢ none
  unfolding frames_loop
  frames_loop_ends h = ends (parse_frame_information buffer).0
    where
      ends :
          (r : Result VirtualUnwindFrameInformation)
          → elim r as (λ _. Option (Result (List VirtualUnwindFrameInformation))) [
            | ok info ↦
                frames_loop fuel
                  (parse_frame_information buffer).1
                  (latest cur info)
                  (out ++ (link (latest cur info) info ∷ []))
            | err e ↦ if is_eof e then some (ok out) else some panic
            | panic ↦ some panic
          ]
            ≢ none
      ends (ok info) = h info
      ends (err e) = ground arith
      ends panic = ground arith

frames_loop_total :
    (fuel : ℕ) (buffer : Bytes) (cur : Option CommonInformationEntry)
    (out : List VirtualUnwindFrameInformation)
    → length buffer < fuel
    → frames_loop fuel buffer cur out ≢ none
frames_loop_total zero buffer cur out h = absurd (omega arith)
frames_loop_total (suc fuel) [] cur out h = unfold frames_loop parse_frame_information in λ e. cc
frames_loop_total (suc fuel) (b ∷ bs) cur out h =
    frames_loop_ends fuel (b ∷ bs) cur out
      λ info. frames_loop_total fuel _ _ _ (omega (arith, parse_frame_information-shorter b bs))

-- The loop ends on every section: it has a result, or it panics.
pub parse_frames_total :
    (buffer : Bytes) (out : List VirtualUnwindFrameInformation)
    → (r : Result (List VirtualUnwindFrameInformation)) × (parse_frames buffer out ≡ some r)
unfolding parse_frames
parse_frames_total buffer out =
    elim (Option-cases (frames_loop (suc (length buffer)) buffer none out)) [
      | inl e ↦ absurd (frames_loop_total (suc (length buffer)) buffer none out (omega arith) e)
      | inr (r, e) ↦ (r, e)
    ]

frames_loop-print :
    (ls : List Layout) (fuel : ℕ) (cur : Option CommonInformationEntry)
    (out : List VirtualUnwindFrameInformation)
    → All IsEntry ls
    → length (print_all ls) < fuel
    → frames_loop fuel (print_all ls) cur out ≡ some (ok (out ++ infos_of cur ls))
unfolding latest link
frames_loop-print ls zero cur out h k = absurd (omega arith)
frames_loop-print [] (suc fuel) cur out h k =
    unfold frames_loop parse_frame_information in rw append-nil
frames_loop-print (cie c ∷ ls) (suc fuel) cur out h k =
    frames_loop_step fuel _ cur out (info_of none (cie c)) (print_all ls)
      (parse_frame_information-print (cie c) (print_all ls) h.0)
    ∙ frames_loop-print ls fuel (some (cie_of c)) (out ++ (info_of none (cie c) ∷ [])) h.1
        (omega (arith, length-append (print (cie c)) (print_all ls)))
    ∙ ap (λ r. some (ok r)) (append_assoc out _ _)
frames_loop-print (fde f ∷ ls) (suc fuel) cur out h k =
    frames_loop_step fuel _ cur out (info_of none (fde f)) (print_all ls)
      (parse_frame_information-print (fde f) (print_all ls) h.0)
    ∙ frames_loop-print ls fuel cur (out ++ (info_of cur (fde f) ∷ [])) h.1
        (omega (arith, length-append (print (fde f)) (print_all ls)))
    ∙ ap (λ r. some (ok r)) (append_assoc out _ _)

-- A section that lists entries as the standard lays them out is read back whole, in order, each FDE
-- with the nearest CIE before it, behind what the table held.
pub parse_frames-print_all :
    (ls : List Layout) (out : List VirtualUnwindFrameInformation)
    → All IsEntry ls
    → parse_frames (print_all ls) out ≡ some (ok (out ++ infos_of none ls))
unfolding parse_frames
parse_frames-print_all ls out h =
    frames_loop-print ls (suc (length (print_all ls))) none out h (omega arith)
