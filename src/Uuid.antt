-- ===== src/Uuid.antt =====
-- generate_uuid of src/store.cpp. What the random generator draws is a parameter: the draws of the
-- n-th call are a function from the draw's place in the call.
use Prim.Native.String.{◌++◌ as append_text}
use agamemnon.Base.{ℕ, zero, suc, ◌+◌, String}

-- The digit of a value below 16.
unfoldable pub hex : ℕ → String
hex zero = "0"
hex (suc zero) = "1"
hex (suc (suc zero)) = "2"
hex (suc (suc (suc zero))) = "3"
hex (suc (suc (suc (suc zero)))) = "4"
hex (suc (suc (suc (suc (suc zero))))) = "5"
hex (suc (suc (suc (suc (suc (suc zero)))))) = "6"
hex (suc (suc (suc (suc (suc (suc (suc zero))))))) = "7"
hex (suc (suc (suc (suc (suc (suc (suc (suc zero)))))))) = "8"
hex (suc (suc (suc (suc (suc (suc (suc (suc (suc zero))))))))) = "9"
hex (suc (suc (suc (suc (suc (suc (suc (suc (suc (suc zero)))))))))) = "a"
hex (suc (suc (suc (suc (suc (suc (suc (suc (suc (suc (suc zero))))))))))) = "b"
hex (suc (suc (suc (suc (suc (suc (suc (suc (suc (suc (suc (suc zero)))))))))))) = "c"
hex (suc (suc (suc (suc (suc (suc (suc (suc (suc (suc (suc (suc (suc zero))))))))))))) = "d"
hex (suc (suc (suc (suc (suc (suc (suc (suc (suc (suc (suc (suc (suc (suc zero)))))))))))))) = "e"
hex _ = "f"

-- `n` digits of the draws from place `i` on.
unfoldable pub digits : (ℕ → ℕ) → ℕ → ℕ → String
digits draw zero i = ""
digits draw (suc n) i = append_text (hex (draw i)) (digits draw n (i + 1))

-- Thirty-two digits in five groups; the third begins with 4, and the digit at place 15 is drawn from
-- 8 to 11.
unfoldable pub generate_uuid : (ℕ → ℕ) → String
unfolding hex digits
generate_uuid draw = append_text (digits draw 8 0) (
    append_text "-" (
      append_text (digits draw 4 8) (
        append_text "-4" (
          append_text (digits draw 3 12) (
            append_text "-" (
              append_text (hex (draw 15))
                (append_text (digits draw 3 16) (append_text "-" (digits draw 12 19)))))))))
