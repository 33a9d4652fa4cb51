-- ===== src/Tests/Texts.antt =====
-- Headers, their keys and their text; and the logger.
use mongoose_cpp.Prelude.{◌≡◌, refl, true, false, List, [], ◌∷◌, some, codes, arith}
use mongoose_cpp.Table.Order.{insertion_order}
use mongoose_cpp.Http.Headers
use mongoose_cpp.Http.Headers.{Entry, default_line, get, get_view, has}
use mongoose_cpp.Http.Headers.Laws.{get_history, apply_all, setting, NamesDiffer}
use mongoose_cpp.Http.Headers.Format.{decode, decode-format}
use mongoose_cpp.Server.Logger.{log_all, register_logger, logged, IsOpen, log_all-logged}
use mongoose_cpp.Tests.Samples.{sample_headers}

get_history_example :
    (get
        (apply_all []
          (setting (codes "Host") (codes "a") ∷ setting (codes "HOST") (codes "b") ∷ []))
        (codes "host")
      ≡ some (codes "b"))
    × NamesDiffer (
        apply_all [] (setting (codes "Host") (codes "a") ∷ setting (codes "HOST") (codes "b") ∷ []))
get_history_example =
    get_history (setting (codes "Host") (codes "a") ∷ setting (codes "HOST") (codes "b") ∷ [])
      (codes "host")

decode-format_example :
    (decode (Headers.format insertion_order sample_headers true 0) ≡ some sample_headers)
    × (decode (Headers.format insertion_order sample_headers false 0) ≡ some sample_headers)
decode-format_example =
    decode-format insertion_order sample_headers 0 ((refl, refl), ((refl, refl), tt))

abbrev no_entry : List Entry
no_entry = []

log_all-logged_example :
    (logged (log_all (register_logger 4) (codes "one\ntwo")) ≡ codes "one\ntwo")
    × IsOpen 4 (log_all (register_logger 4) (codes "one\ntwo"))
log_all-logged_example = log_all-logged 4 (codes "one\ntwo") (omega arith)
