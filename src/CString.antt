-- ===== src/CString.antt =====
-- The functions of the C library that the program calls on strings. An array of `char` is the list
-- of its bytes; a string is read up to its first zero byte, or to the end of a list that has none.
mod Span
mod Decimal
mod Search
pub use Span.*
unfoldable pub use Decimal.{print_nat, print_int, atoi}
pub use Decimal.{
  atoi_digits, as_int_small, length-print_nat, length-print_nat_int, atoi-print_nat,
  print_nat-digit, value, value_from,
}
pub use Search.{Occurs, strstr-append, strstr-Occurs}
