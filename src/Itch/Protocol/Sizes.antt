-- ===== src/Itch/Protocol/Sizes.antt =====
-- The sizes of the packed structs of src/ingestion/ItchProtocols.hpp.
use nanomatch.Base.{ℕ}
use nanomatch.Wire.Length.{Takes, pure-Takes, bind-Takes, word-Takes, chars-Takes}
use nanomatch.Itch.Protocol.Read.{
  read_timestamp, read_header, read_add_order, read_stock_directory, read_add_order_attributed,
  read_order_executed, read_order_executed_with_price, read_order_cancel, read_order_delete,
  read_order_replace,
}

abbrev pub sizeof_header : ℕ
sizeof_header = 3

abbrev pub sizeof_add_order : ℕ
sizeof_add_order = 35

abbrev pub sizeof_stock_directory : ℕ
sizeof_stock_directory = 38

abbrev pub sizeof_add_order_attributed : ℕ
sizeof_add_order_attributed = 39

abbrev pub sizeof_order_executed : ℕ
sizeof_order_executed = 30

abbrev pub sizeof_order_executed_with_price : ℕ
sizeof_order_executed_with_price = 35

abbrev pub sizeof_order_cancel : ℕ
sizeof_order_cancel = 22

abbrev pub sizeof_order_delete : ℕ
sizeof_order_delete = 18

abbrev pub sizeof_order_replace : ℕ
sizeof_order_replace = 34

timestamp-Takes : Takes 6 read_timestamp
unfolding read_timestamp
timestamp-Takes = bind-Takes (chars-Takes 6) (λ _. pure-Takes _)

pub header-Takes : Takes sizeof_header read_header
unfolding read_header
header-Takes = bind-Takes (word-Takes 2) (λ _. bind-Takes (word-Takes 1) (λ _. pure-Takes _))

pub add_order-Takes : Takes sizeof_add_order read_add_order
unfolding read_add_order
add_order-Takes = bind-Takes (word-Takes 2) (λ _. bind-Takes (word-Takes 2) (λ _.
    bind-Takes timestamp-Takes (λ _. bind-Takes (word-Takes 8) (λ _. bind-Takes (word-Takes 1) (λ _.
      bind-Takes (word-Takes 4)
        (λ _. bind-Takes (chars-Takes 8) (λ _. bind-Takes (word-Takes 4) (λ _. pure-Takes _))))))))

pub stock_directory-Takes : Takes sizeof_stock_directory read_stock_directory
unfolding read_stock_directory
stock_directory-Takes = bind-Takes (word-Takes 2) (λ _. bind-Takes (word-Takes 2) (λ _.
    bind-Takes timestamp-Takes (λ _. bind-Takes (chars-Takes 8) (λ _.
      bind-Takes (word-Takes 1) (λ _. bind-Takes (word-Takes 1) (λ _.
        bind-Takes (word-Takes 4) (λ _. bind-Takes (word-Takes 1) (λ _.
          bind-Takes (word-Takes 1) (λ _. bind-Takes (chars-Takes 2) (λ _.
            bind-Takes (word-Takes 1) (λ _. bind-Takes (word-Takes 1) (λ _.
              bind-Takes (word-Takes 1) (λ _. bind-Takes (word-Takes 1) (λ _.
                bind-Takes (word-Takes 1) (λ _.
                  bind-Takes (word-Takes 4)
                    (λ _. bind-Takes (word-Takes 1) (λ _. pure-Takes _)))))))))))))))))

pub add_order_attributed-Takes : Takes sizeof_add_order_attributed read_add_order_attributed
unfolding read_add_order_attributed
add_order_attributed-Takes = bind-Takes (word-Takes 2) (λ _. bind-Takes (word-Takes 2) (λ _.
    bind-Takes timestamp-Takes (λ _. bind-Takes (word-Takes 8) (λ _. bind-Takes (word-Takes 1) (λ _.
      bind-Takes (word-Takes 4) (λ _.
        bind-Takes (chars-Takes 8) (λ _.
          bind-Takes (word-Takes 4) (λ _. bind-Takes (chars-Takes 4) (λ _. pure-Takes _)))))))))

pub order_executed-Takes : Takes sizeof_order_executed read_order_executed
unfolding read_order_executed
order_executed-Takes = bind-Takes (word-Takes 2) (λ _. bind-Takes (word-Takes 2) (λ _.
    bind-Takes timestamp-Takes (λ _.
      bind-Takes (word-Takes 8)
        (λ _. bind-Takes (word-Takes 4) (λ _. bind-Takes (word-Takes 8) (λ _. pure-Takes _))))))

pub order_executed_with_price-Takes :
    Takes sizeof_order_executed_with_price read_order_executed_with_price
unfolding read_order_executed_with_price
order_executed_with_price-Takes = bind-Takes (word-Takes 2) (λ _. bind-Takes (word-Takes 2) (λ _.
    bind-Takes timestamp-Takes (λ _. bind-Takes (word-Takes 8) (λ _. bind-Takes (word-Takes 4) (λ _.
      bind-Takes (word-Takes 8)
        (λ _. bind-Takes (word-Takes 1) (λ _. bind-Takes (word-Takes 4) (λ _. pure-Takes _))))))))

pub order_cancel-Takes : Takes sizeof_order_cancel read_order_cancel
unfolding read_order_cancel
order_cancel-Takes = bind-Takes (word-Takes 2) (λ _. bind-Takes (word-Takes 2) (λ _.
    bind-Takes timestamp-Takes
      (λ _. bind-Takes (word-Takes 8) (λ _. bind-Takes (word-Takes 4) (λ _. pure-Takes _)))))

pub order_delete-Takes : Takes sizeof_order_delete read_order_delete
unfolding read_order_delete
order_delete-Takes = bind-Takes (word-Takes 2) (λ _.
    bind-Takes (word-Takes 2)
      (λ _. bind-Takes timestamp-Takes (λ _. bind-Takes (word-Takes 8) (λ _. pure-Takes _))))

pub order_replace-Takes : Takes sizeof_order_replace read_order_replace
unfolding read_order_replace
order_replace-Takes = bind-Takes (word-Takes 2) (λ _. bind-Takes (word-Takes 2) (λ _.
    bind-Takes timestamp-Takes (λ _. bind-Takes (word-Takes 8) (λ _.
      bind-Takes (word-Takes 8)
        (λ _. bind-Takes (word-Takes 4) (λ _. bind-Takes (word-Takes 4) (λ _. pure-Takes _)))))))
