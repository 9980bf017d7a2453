-- ===== src/Tests/Freed.antt =====
-- Blocks that are freed: properties, the bodies of a message, and files that share a name.
use tnef.Prelude.{
  ℕ, ◌≡◌, refl, not, ◌||◌, ◌&&◌, none, some, Option, List, [], ◌∷◌, ◌++◌, ltb, arith,
}
use tnef.Outcome.{ok, halt, fault}
use tnef.Names.{szmapi_object, szmapi_string}
use tnef.Heap.{Heap, is_among}
use tnef.Mapi.Free.{
  Held, mapi_attr_free_list, all_reachable, all_left_of, mapi_attr_free_list-frees,
}
use tnef.Tnef.Free.{HeldBodies, reachable, free_message, free_message-frees}
use tnef.File.Free.{HeldBody, held_files, blocks_of, free_files, free_files-held_files}

-- The blocks at the addresses below 12.
abbrev heap : Heap
heap p = ltb p 12

-- A string property with a name, and one with an object.
abbrev properties : List (Option ℕ × Held)
properties =
    (
      some 0,
      record {
        type = szmapi_string;
        bufs = some 1 ∷ some 2 ∷ [];
        names_data = some 3 ∷ [];
        names = some 4;
        values = some 5;
        guid = some 6;
      },
    )
    ∷ (
      some 7,
      record {
        type = szmapi_object;
        bufs = some 8 ∷ [];
        names_data = [];
        names = none;
        values = some 9;
        guid = none;
      },
    )
    ∷ []

mapi_attr_free_list-frees_example :
    (h' : Heap) × (mapi_attr_free_list properties heap ≡ ok h')
    × ((q : ℕ)
        → h' q ≡ (
            heap q
            && (not (is_among q (all_reachable properties))
                || is_among q (all_left_of properties))))
unfolding is_among
mapi_attr_free_list-frees_example =
    mapi_attr_free_list-frees properties heap ((λ e. absurd (omega arith)), ((λ e. refl), tt))
      (refl, (refl, (refl, (refl, (refl, (refl, (refl, (refl, (refl, (refl, tt))))))))))
      (refl, (refl, (refl, (refl, (refl, (refl, (refl, (refl, (refl, (refl, tt))))))))))

abbrev one_text : HeldBodies
one_text = record { array = some 0; entries = some (1, some 2) ∷ []; size = 0 }

abbrev two_rtf : HeldBodies
two_rtf = record { array = some 3; entries = none ∷ some (4, some 5) ∷ []; size = 2 }

abbrev no_html : HeldBodies
no_html = record { array = none; entries = []; size = 0 }

free_message-frees_example :
    (h' : Heap) × (free_message one_text two_rtf no_html heap ≡ ok h')
    × ((q : ℕ)
        → h' q ≡ (
            heap q
            && not (is_among q (reachable one_text ++ (reachable two_rtf ++ reachable no_html)))))
unfolding is_among
free_message-frees_example =
    free_message-frees one_text two_rtf no_html heap ((λ e. absurd (ground arith)), (λ e. refl))
      (refl, (λ e. absurd (omega arith))) (refl, (λ e. refl))
      (refl, (refl, (refl, (refl, (refl, (refl, tt))))))
      (refl, (refl, (refl, (refl, (refl, (refl, tt))))))

abbrev body_blocks : HeldBody
body_blocks = record { file = 2; data_ptr = 3; path = 4 }

abbrev more_blocks : HeldBody
more_blocks = record { file = 5; data_ptr = 6; path = 7 }

free_files-held_files_example :
    (h' : Heap) × (free_files (held_files 0 1 (body_blocks ∷ [])) heap ≡ ok h')
    × ((q : ℕ) → h' q ≡ (heap q && not (is_among q (blocks_of 0 1 body_blocks))))
    × (free_files (held_files 0 1 (body_blocks ∷ more_blocks ∷ [])) heap ≡ halt fault)
unfolding is_among
free_files-held_files_example =
    free_files-held_files 0 1 body_blocks more_blocks [] heap
      (refl, (refl, (refl, (refl, (refl, tt))))) (refl, (refl, (refl, (refl, (refl, tt)))))
