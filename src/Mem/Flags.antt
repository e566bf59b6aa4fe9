-- ===== src/Mem/Flags.antt =====
-- The flags of a page, set and cleared independently.
use geekos.Base.{◌≡◌, true, false, arith}
use geekos.Base.Bits.{has, has-or_pow, has-and_mask}
use geekos.Mem.{Page, page_allocated, page_pageable, page_locked, set_flags, clear_flags}

pub set_allocated-allocated :
    (p : Page) → has (set_flags p page_allocated).flags page_allocated ≡ true
set_allocated-allocated p = ground (arith, has-or_pow p.flags 2 2)

pub clear_allocated-allocated :
    (p : Page) → has (clear_flags p page_allocated).flags page_allocated ≡ false
clear_allocated-allocated p = ground (arith, has-and_mask p.flags 2 2 (omega arith) (omega arith))

pub set_allocated-pageable :
    (p : Page) → has (set_flags p page_allocated).flags page_pageable ≡ has p.flags page_pageable
set_allocated-pageable p = ground (arith, has-or_pow p.flags 2 5)

pub clear_allocated-pageable :
    (p : Page) → has (clear_flags p page_allocated).flags page_pageable ≡ has p.flags page_pageable
clear_allocated-pageable p = ground (arith, has-and_mask p.flags 2 5 (omega arith) (omega arith))

pub set_allocated-locked :
    (p : Page) → has (set_flags p page_allocated).flags page_locked ≡ has p.flags page_locked
set_allocated-locked p = ground (arith, has-or_pow p.flags 2 6)

pub clear_allocated-locked :
    (p : Page) → has (clear_flags p page_allocated).flags page_locked ≡ has p.flags page_locked
clear_allocated-locked p = ground (arith, has-and_mask p.flags 2 6 (omega arith) (omega arith))

pub set_pageable-allocated :
    (p : Page) → has (set_flags p page_pageable).flags page_allocated ≡ has p.flags page_allocated
set_pageable-allocated p = ground (arith, has-or_pow p.flags 5 2)

pub clear_pageable-allocated :
    (p : Page) → has (clear_flags p page_pageable).flags page_allocated ≡ has p.flags page_allocated
clear_pageable-allocated p = ground (arith, has-and_mask p.flags 5 2 (omega arith) (omega arith))

pub set_pageable-pageable : (p : Page) → has (set_flags p page_pageable).flags page_pageable ≡ true
set_pageable-pageable p = ground (arith, has-or_pow p.flags 5 5)

pub clear_pageable-pageable :
    (p : Page) → has (clear_flags p page_pageable).flags page_pageable ≡ false
clear_pageable-pageable p = ground (arith, has-and_mask p.flags 5 5 (omega arith) (omega arith))

pub set_locked-allocated :
    (p : Page) → has (set_flags p page_locked).flags page_allocated ≡ has p.flags page_allocated
set_locked-allocated p = ground (arith, has-or_pow p.flags 6 2)

pub clear_locked-allocated :
    (p : Page) → has (clear_flags p page_locked).flags page_allocated ≡ has p.flags page_allocated
clear_locked-allocated p = ground (arith, has-and_mask p.flags 6 2 (omega arith) (omega arith))
