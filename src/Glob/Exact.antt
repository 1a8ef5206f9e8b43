-- ===== src/Glob/Exact.antt =====
-- GlobMatch accepts all that its pattern relates, with the pattern's length as fuel.
use ultima.Base.{[], Bytes}
use ultima.Glob.{Head, head_end, head_star, head_any, head_class, head_byte}

rest_of : Head → Bytes
rest_of head_end = []
rest_of (head_star q) = q
rest_of (head_any q) = q
rest_of (head_class q) = q
rest_of (head_byte c q) = q
